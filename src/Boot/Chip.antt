-- ===== src/Boot/Chip.antt =====
-- A chip whose flash is a function from addresses to bytes, for the laws of the self-programming.
use split_flap.Common.{
  ℕ, zero, suc, ◌+◌, ◌*◌, ◌/◌, ◌%◌, ◌<◌, ◌≤◌, ◌≡◌, refl, ap, ◌∙◌, List, [], ◌∷◌, Bool, arith, ◌==◌,
  if◌then◌else◌, length, get_or, IsByte, All,
}
use split_flap.Boot.Hardware.{Hardware, IsSpm, fill_words, page_size}

-- The flash and its page buffer.
pub record Flash : Type 0 where
  pub mem : ℕ → ℕ
  pub page : ℕ → ℕ

unfoldable pub same_page : ℕ → ℕ → Bool
same_page a b = a / page_size == b / page_size

unfoldable pub fill : ℕ → ℕ → Flash → Flash
fill addr word f =
    let at = addr % page_size in
    record f {
      page = λ i. if i == at then word % 256 else if i == at + 1 then word / 256 else f.page i;
    }

abbrev pub chip : Hardware Flash (ℕ → ℕ)
chip = record {
  page_erase = λ p f. record f { mem = λ a. if same_page a p then 0xff else f.mem a };
  page_fill = fill;
  page_write =
      λ p f. record f { mem = λ a. if same_page a p then f.page (a % page_size) else f.mem a };
  rww_enable = λ f. f;
  read_flash = λ f a. f.mem a;
  read_eeprom = λ e a. e a;
  write_eeprom = λ a v e b. if a == b then v else e b;
  fuse_bits = λ i. 0xff;
}

-- One word of an aligned page.
fill_lem :
    (p k lo hi : ℕ) (f : Flash) (i : ℕ)
    → p % page_size ≡ 0
    → k < page_size
    → IsByte lo
    → IsByte hi
    → (fill (p + k) (lo + hi * 256) f).page i
      ≡ (if i == k then lo else if i == k + 1 then hi else f.page i)
unfolding fill
fill_lem p k lo hi f i al h l m = ground arith

-- The buffer behind the fills of the words from the `k`-th byte of an aligned page on.
filled_below :
    (p k : ℕ) (bytes : List ℕ) (f : Flash) (i : ℕ)
    → p % page_size ≡ 0
    → k + length bytes ≤ page_size
    → All IsByte bytes
    → i < k
    → (fill_words chip (p + k) bytes f).page i ≡ f.page i
unfolding fill_words
filled_below p k [] f i al h b n = refl
filled_below p k (lo ∷ []) f i al h b n = refl
filled_below p k (lo ∷ hi ∷ rest) f i al h b n =
    let e : p + k + 2 ≡ p + (k + 2) = omega arith in
    let f1 : Flash = fill (p + k) (lo + hi * 256) f in
    ap (λ a. (fill_words chip a rest f1).page i) e
    ∙ filled_below p (k + 2) rest f1 i al (omega arith) b.1.1 (omega arith)
    ∙ ground (arith, fill_lem p k lo hi f i al (omega arith) b.0 b.1.0)

filled :
    (p k : ℕ) (bytes : List ℕ) (f : Flash) (i : ℕ)
    → p % page_size ≡ 0
    → length bytes % 2 ≡ 0
    → k + length bytes ≤ page_size
    → All IsByte bytes
    → i < length bytes
    → (fill_words chip (p + k) bytes f).page (k + i) ≡ get_or bytes i 0
unfolding fill_words
filled p k [] f i al l h b n = absurd (omega arith)
filled p k (lo ∷ []) f i al l h b n = absurd (omega arith)
filled p k (lo ∷ hi ∷ rest) f i al l h b n =
    let e : p + k + 2 ≡ p + (k + 2) = omega arith in
    let f1 : Flash = fill (p + k) (lo + hi * 256) f in
    let even : length rest % 2 ≡ 0 = omega (arith, l) in
    ap (λ a. (fill_words chip a rest f1).page (k + i)) e
    ∙ by_index f1 i n (filled_below p (k + 2) rest f1 (k + i) al (omega arith) b.1.1)
        (fill_lem p k lo hi f (k + i) al (omega arith) b.0 b.1.0)
        (λ j m. filled p (k + 2) rest f1 j al even (omega arith) b.1.1 m)
  where
    by_index :
        (f1 : Flash) (i : ℕ)
        → i < suc (suc (length rest))
        → (k + i < k + 2 → (fill_words chip (p + (k + 2)) rest f1).page (k + i) ≡ f1.page (k + i))
        → f1.page (k + i)
          ≡ (if k + i == k then lo else if k + i == k + 1 then hi else f.page (k + i))
        → ((j : ℕ)
            → j < length rest
            → (fill_words chip (p + (k + 2)) rest f1).page (k + 2 + j) ≡ get_or rest j 0)
        → (fill_words chip (p + (k + 2)) rest f1).page (k + i) ≡ get_or (lo ∷ hi ∷ rest) i 0
    by_index f1 zero n low here later = ground (arith, low, here)
    by_index f1 (suc zero) n low here later = ground (arith, low, here)
    by_index f1 (suc (suc i)) n low here later =
        let e : k + suc (suc i) ≡ k + 2 + i = omega arith in rw e (later i (omega arith))

All-of_get :
    (bytes : List ℕ) → ((j : ℕ) → j < length bytes → IsByte (get_or bytes j 0)) → All IsByte bytes
All-of_get [] h = tt
All-of_get (b ∷ bytes) h = (h 0 (omega arith), All-of_get bytes (λ j l. h (suc j) (omega arith)))

pub chip-IsSpm : IsSpm chip
unfolding fill same_page
chip-IsSpm = record {
  fill_outside = λ addr word f a. refl;
  erase_outside = λ p f a h. ground (arith, h);
  write_outside = λ p f a h. ground (arith, h);
  enable_keeps = λ f a. refl;
  programmed = λ p bytes f i al n b h.
      programmed_lem p bytes f i al n (All-of_get bytes (λ j l. b j (omega arith))) h;
}
  where
    programmed_lem :
        (p : ℕ) (bytes : List ℕ) (f : Flash) (i : ℕ)
        → p % page_size ≡ 0
        → length bytes ≡ page_size
        → All IsByte bytes
        → i < page_size
        → chip.read_flash
            (chip.page_write p (fill_words chip p bytes (chip.page_erase p f)))
            (p + i)
          ≡ get_or bytes i 0
    programmed_lem p bytes f i al n b h =
        let f0 : Flash = chip.page_erase p f in
        let z : p + 0 ≡ p = omega arith in
        let q : (fill_words chip p bytes f0).page (0 + i) ≡ get_or bytes i 0 =
          rw z at (filled p 0 bytes f0 i al (omega arith) (omega arith) b (omega arith)) in
        let in_page : (p + i) % page_size ≡ 0 + i = omega arith in
        let same : (p + i) / page_size ≡ p / page_size = omega arith in
        ground (arith, q, in_page, same)
