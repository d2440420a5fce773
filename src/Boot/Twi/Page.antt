-- ===== src/Boot/Twi/Page.antt =====
-- main.c: a whole page sent to the bootloader is the page that its flash holds afterwards.
use split_flap.Common.{
  ℕ, arith, zero, suc, ◌+◌, ◌-◌, ◌*◌, ◌/◌, ◌%◌, ◌<◌, ◌≤◌, ◌≡◌, ◌≢◌, refl, ap, ◌∙◌, List, [], ◌∷◌,
  ◌++◌, Bool, true, ◌==◌, leb, if◌then◌else◌, length, length-set, get_or, get_or-set_self,
  get_or-set_ne, set, u8, IsByte, All,
}
use split_flap.Boot.Hardware.{page_size, bootloader_start, Hardware, IsSpm, fill_words}
use split_flap.Boot.State.{Image, fielded, lean, access_flash, write_flash_page, Boot}
use split_flap.Boot.Memory.{program_page, first_byte, second_byte, later_byte, store, data_write}
use split_flap.Boot.Twi.{
  Event, slave_write, got_acked, stop, on_stop, write_received, twi_vect, serve,
}
use split_flap.Boot.Twi.Safety.{programming-keeps}

-- The bytes of a transfer.
abbrev pub got : List ℕ → List Event
got [] = []
got (b ∷ bs) = got_acked b ∷ got bs

-- SLA+W, 0x02, 0x01, addrh, addrl, {* bytes}, STO
abbrev pub page_transfer : ℕ → ℕ → List ℕ → List Event
page_transfer hi lo bytes = slave_write ∷ got (2 ∷ 1 ∷ hi ∷ lo ∷ bytes) ++ (stop ∷ [])

pub get_or-All : (bytes : List ℕ) (i : ℕ) → All IsByte bytes → IsByte (get_or bytes i 0)
get_or-All [] i all = omega arith
get_or-All (b ∷ bytes) zero all = all.0
get_or-All (b ∷ bytes) (suc i) all = get_or-All bytes i all.1

extend :
    (b : ℕ) (bytes ys : List ℕ) (k : ℕ)
    → get_or ys k 0 ≡ b
    → ((i : ℕ) → i < length bytes → get_or ys (k + 1 + i) 0 ≡ get_or bytes i 0)
    → (i : ℕ) → i < suc (length bytes)
    → get_or ys (k + i) 0 ≡ get_or (b ∷ bytes) i 0
extend b bytes ys k first others zero l = let e : k + 0 ≡ k = omega arith in rw e first
extend b bytes ys k first others (suc i) l =
    let e : k + suc i ≡ k + 1 + i = omega arith in rw e (others i (omega arith))

module _ {F E : Type 0} (hw : Hardware F E) (image : Image) where
  pub serve-append :
      (es fs : List Event) (s : Boot F E)
      → serve hw image (es ++ fs) s ≡ serve hw image fs (serve hw image es s)
  unfolding serve
  serve-append [] fs s = refl
  serve-append (e ∷ es) fs s = serve-append es fs (twi_vect hw image e s)

  -- What a state has of the bytes of a page, `k` of which are there.
  pub record Filling (page k : ℕ) (f : F) (s : Boot F E) : Type 0 where
    pub counted : s.bcnt ≡ 4 + k
    pub at : s.addr ≡ page
    pub whole : length s.buf ≡ page_size
    pub flash_kept : s.flash ≡ f
    pub command : s.cmd ≡ (if k == page_size then write_flash_page else access_flash)

  data_write-page :
      (k byte : ℕ) (s : Boot F E)
      → k < page_size
      → data_write hw image (4 + k) byte s ≡ later_byte hw image s.cmd k byte s
  unfolding data_write
  data_write-page k byte s h = let e : u8 (4 + k + 256 - 4) ≡ k = omega arith in ground (arith, e)

  pub stored :
      (page k byte : ℕ) (f : F) (s : Boot F E)
      → k < page_size
      → Filling page k f s
      → data_write hw image s.bcnt byte s ≡ later_byte hw image access_flash k byte s
  stored page k byte f s h p =
      let c : s.cmd ≡ access_flash = ground (arith, p.command) in
      ap (λ n. data_write hw image n byte s) p.counted
      ∙ data_write-page k byte s h
      ∙ ap (λ c. later_byte hw image c k byte s) c

  -- What `later_byte` leaves of a state that fills a page.
  Stored : ℕ → ℕ → Boot F E → Bool × Boot F E → Type 0
  Stored k byte s (_, t) =
      (t.bcnt ≡ s.bcnt)
      × (t.addr ≡ s.addr)
      × (t.buf ≡ set s.buf k byte)
      × (t.flash ≡ s.flash)
      × (t.cmd ≡ (if leb (page_size - 1) k then write_flash_page else s.cmd))

  later_byte-Stored :
      (k byte : ℕ) (s : Boot F E) → Stored k byte s (later_byte hw image access_flash k byte s)
  unfolding later_byte store Stored
  later_byte-Stored k byte s = ground arith

  pub one_byte :
      (page k byte : ℕ) (f : F) (s : Boot F E)
      → k < page_size
      → Filling page k f s
      → let t = twi_vect hw image (got_acked byte) s in
        Filling page (k + 1) f t × (t.buf ≡ set s.buf k byte)
  unfolding twi_vect Stored
  one_byte page k byte f s h p =
      let e = stored page k byte f s h p in
      let (n, a, b, fl, c) : Stored k byte s (data_write hw image s.bcnt byte s) =
        rw e (later_byte-Stored k byte s) in
      (
        record {
          counted = ground (arith, n, p.counted);
          at = a ∙ p.at;
          whole = ap length b ∙ length-set s.buf k byte ∙ p.whole;
          flash_kept = fl ∙ p.flash_kept;
          command = ground (arith, c, p.command);
        },
        b,
      )

  -- Any number of bytes that fit.
  pub some_bytes :
      (bytes : List ℕ) (page k : ℕ) (f : F) (s : Boot F E)
      → k + length bytes ≤ page_size
      → Filling page k f s
      → let t = serve hw image (got bytes) s in
        Filling page (k + length bytes) f t
        × ((i : ℕ) → i < k → get_or t.buf i 0 ≡ get_or s.buf i 0)
        × ((i : ℕ) → i < length bytes → get_or t.buf (k + i) 0 ≡ get_or bytes i 0)
  unfolding serve
  some_bytes [] page k f s h p =
      (let e : k + 0 ≡ k = omega arith in rw e p, λ i l. refl, λ i l. absurd (omega arith))
  some_bytes (b ∷ bytes) page k f s h p =
      let (p', stored) = one_byte page k b f s (omega arith) p in
      let (q, before, behind) = some_bytes bytes page (k + 1) f _ (omega arith) p' in
      let shift : k + 1 + length bytes ≡ k + suc (length bytes) = omega arith in
      (
        rw shift at q,
        λ i l.
            before i (omega arith)
            ∙ ap (λ xs. get_or xs i 0) stored
            ∙ get_or-set_ne s.buf k i b 0 (λ e. absurd (omega arith)),
        extend b bytes _ k
            (before k (omega arith)
              ∙ ap (λ xs. get_or xs k 0) stored
              ∙ get_or-set_self s.buf k b 0 (omega (arith, p.whole)))
            behind,
      )

  -- SLA+W and the four bytes before the page.
  pub opened :
      (image : Image) (hi lo : ℕ) (s : Boot F E)
      → IsByte hi
      → IsByte lo
      → length s.buf ≡ page_size
      → let t = serve hw image (slave_write ∷ got (2 ∷ 1 ∷ hi ∷ lo ∷ [])) s in
        Filling (hi * 256 + lo) 0 s.flash t
  unfolding serve twi_vect data_write first_byte second_byte
  opened fielded hi lo s h l w = record {
    counted = refl;
    at = omega arith;
    whole = w;
    flash_kept = refl;
    command = refl;
  }
  opened lean hi lo s h l w = record {
    counted = refl;
    at = omega arith;
    whole = w;
    flash_kept = refl;
    command = refl;
  }

  -- The state that the STOP of a page transfer finds.
  pub received :
      (hi lo : ℕ) (bytes : List ℕ) (s : Boot F E)
      → IsByte hi
      → IsByte lo
      → length s.buf ≡ page_size
      → length bytes ≤ page_size
      → (t : Boot F E) × (serve hw image (page_transfer hi lo bytes) s ≡ on_stop hw image t)
        × Filling (hi * 256 + lo) (length bytes) s.flash t
        × ((i : ℕ) → i < length bytes → get_or t.buf i 0 ≡ get_or bytes i 0)
  unfolding serve twi_vect
  received hi lo bytes s h l w n =
      let o = opened image hi lo s h l w in
      let (q, before, behind) = some_bytes bytes (hi * 256 + lo) 0 s.flash _ (omega arith) o in
      let z : (n : ℕ) → 0 + n ≡ n = λ n. omega arith in
      (
        _,
        serve-append (got bytes) (stop ∷ []) _,
        rw (z (length bytes)) at q,
        λ i l. rw (z i) at (behind i (omega arith)),
      )

  -- A page transfer of fewer than 128 bytes leaves the flash as it was, in either image.
  short_page_not_written :
      (hi lo : ℕ) (bytes : List ℕ) (s : Boot F E)
      → IsByte hi
      → IsByte lo
      → length s.buf ≡ page_size
      → length bytes < page_size
      → (serve hw image (page_transfer hi lo bytes) s).flash ≡ s.flash
  unfolding on_stop
  short_page_not_written hi lo bytes s h l w n =
      let (t, e, q, stored) = received hi lo bytes s h l w (omega arith) in
      let c : t.cmd ≡ access_flash = ground (arith, q.command) in
      ap (λ u. u.flash) e ∙ ap (λ c. (write_received hw image c t).flash) c ∙ q.flash_kept

module _ {F E : Type 0} (hw : Hardware F E) (spm : IsSpm hw) (image : Image) where
  -- Erase, fill and write of a page.
  programmed_flash : ℕ → List ℕ → F → F
  programmed_flash page bytes f =
      hw.rww_enable (hw.page_write page (fill_words hw page bytes (hw.page_erase page f)))

  program_page_lem :
      (s : Boot F E)
      → s.addr < bootloader_start
      → ((program_page hw s).addr ≡ s.addr + page_size)
        × ((program_page hw s).flash ≡ programmed_flash s.addr s.buf s.flash)
  unfolding program_page programmed_flash
  program_page_lem s low = ground arith

  program_page-programmed :
      (page : ℕ) (s : Boot F E)
      → s.addr ≡ page
      → page % page_size ≡ 0
      → page < bootloader_start
      → length s.buf ≡ page_size
      → ((j : ℕ) → j < page_size → IsByte (get_or s.buf j 0))
      → ((program_page hw s).addr ≡ page + page_size)
        × ((i : ℕ)
            → i < page_size
            → hw.read_flash (program_page hw s).flash (page + i) ≡ get_or s.buf i 0)
        × ((a : ℕ)
            → a / page_size ≢ page / page_size
            → hw.read_flash (program_page hw s).flash a ≡ hw.read_flash s.flash a)
  unfolding programmed_flash
  program_page-programmed page s e al low w bytes =
      let (next, f) = program_page_lem s (omega arith) in
      let f' : (program_page hw s).flash ≡ programmed_flash page s.buf s.flash =
        f ∙ ap (λ p. programmed_flash p s.buf s.flash) e in
      (
        omega arith,
        λ i l.
            ap (λ f. hw.read_flash f (page + i)) f'
            ∙ spm.enable_keeps _ _
            ∙ spm.programmed page s.buf s.flash i al w bytes l,
        λ a d. ap (λ f. hw.read_flash f a) f' ∙ programming-keeps hw spm page s.buf s.flash a d,
      )

  -- On a chip with the laws of self-programming, a page transfer of 128 bytes to the start of a
  -- page below the bootloader leaves those bytes in the page and every other page as it was, and
  -- `addr` at the next page.
  pub page_programmed :
      (hi lo : ℕ) (bytes : List ℕ) (s : Boot F E)
      → IsByte hi
      → IsByte lo
      → All IsByte bytes
      → length s.buf ≡ page_size
      → length bytes ≡ page_size
      → (hi * 256 + lo) % page_size ≡ 0
      → hi * 256 + lo < bootloader_start
      → let page = hi * 256 + lo in
        let t = serve hw image (page_transfer hi lo bytes) s in
        (t.addr ≡ page + page_size)
        × ((i : ℕ) → i < page_size → hw.read_flash t.flash (page + i) ≡ get_or bytes i 0)
        × ((a : ℕ)
            → a / page_size ≢ page / page_size
            → hw.read_flash t.flash a ≡ hw.read_flash s.flash a)
  unfolding on_stop write_received
  page_programmed hi lo bytes s h l all w n al low =
      let (t, e, q, stored) = received hw image hi lo bytes s h l w (omega arith) in
      let c : t.cmd ≡ write_flash_page = ground (arith, q.command) in
      let e' : serve hw image (page_transfer hi lo bytes) s
          ≡ record (program_page hw t) { bcnt = 0; acking = true } =
        e ∙ ap (λ c. record (write_received hw image c t) { bcnt = 0; acking = true }) c in
      let (a, inside, outside) =
        program_page-programmed (hi * 256 + lo) t q.at al low q.whole
          (λ j m. rw (stored j (omega arith)) (get_or-All bytes j all)) in
      (
        ap (λ u. u.addr) e' ∙ a,
        λ i l.
            ap (λ u. hw.read_flash u.flash (hi * 256 + lo + i)) e'
            ∙ inside i l
            ∙ stored i (omega arith),
        λ b d.
            ap (λ u. hw.read_flash u.flash b) e'
            ∙ outside b d
            ∙ ap (λ f. hw.read_flash f b) q.flash_kept,
      )
