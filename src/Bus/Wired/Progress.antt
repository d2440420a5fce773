-- ===== src/Bus/Wired/Progress.antt =====
-- What the steps of a flash have put on the unit so far.
use split_flap.Common.{
  ℕ, zero, suc, ◌+◌, ◌*◌, ◌/◌, ◌<◌, ◌≤◌, ◌≡◌, ◌≢◌, refl, sym, ap, ◌∙◌, inl, inr, List, ◌==◌,
  if◌then◌else◌, if_false, Bool-cases, arith,
}
use split_flap.Boot.Hardware.{page_size, Hardware}
use split_flap.Bus.Twiboot.{hold_page}
use split_flap.Bus.Flash.{step_index, step_page, step_count}
use split_flap.Bus.Wired.Pages.{PageIs, Outside}

module _ {F E : Type 0} (hw : Hardware F E) (pages : ℕ → List ℕ) (page_count : ℕ) (start : F) where
  -- Behind `n` steps of a flash that found the flash `start`.
  pub record Progress (n : ℕ) (f : F) : Type 0 where
    pub body : (k : ℕ) → 0 < k → k < n → k < page_count → PageIs hw f (k * 128) (pages k)
    pub first : 0 < page_count → page_count < n → PageIs hw f 0 (pages 0)
    pub beyond : (a : ℕ) → page_count * 128 ≤ a → hw.read_flash f a ≡ hw.read_flash start a

  pub Progress-zero : Progress 0 start
  Progress-zero = record {
    body = λ k z l m. absurd (omega arith);
    first = λ z l. absurd (omega arith);
    beyond = λ a l. refl;
  }

  -- A page that a step does not write.
  kept :
      (f g : F) (page k : ℕ) (bytes : List ℕ)
      → Outside hw f g (page * 128)
      → k ≢ page
      → PageIs hw f (k * 128) bytes
      → PageIs hw g (k * 128) bytes
  kept f g page k bytes outside ne at i l =
      outside (k * 128 + i) (λ e. ne (omega (arith, e, l))) ∙ at i l

  -- Which page a step behind the first writes, and what.
  later_step :
      (n k : ℕ)
      → 0 < n
      → k ≡ (if n == page_count then 0 else n)
      → (step_index page_count n ≡ k) × (step_page pages page_count n ≡ pages k)
  unfolding step_index step_page
  later_step n k z e = (
    sym e,
    if_false (n == 0) hold_page (pages (step_index page_count n)) (ground arith) ∙ ap pages (sym e),
  )

  other_page : (n k : ℕ) → 0 < k → k ≢ n → k ≢ step_index page_count n
  unfolding step_index
  other_page n k z ne e = ground (arith, ne, e)

  -- The step that follows.
  pub Progress-suc :
      (n : ℕ) (f g : F)
      → n < step_count page_count
      → PageIs hw g (step_index page_count n * 128) (step_page pages page_count n)
      → Outside hw f g (step_index page_count n * 128)
      → Progress n f
      → Progress (suc n) g
  unfolding step_index
  Progress-suc n f g l inside outside p = record {
    body = λ k z m c. elim (Bool-cases (k == n)) [
      | inl e ↦
          let (i, b) = later_step n k (ground (arith, e)) (ground (arith, e)) in rw (i, b) at inside
      | inr e ↦
          let ne : k ≢ n = λ q. absurd (ground (arith, e, q)) in
          kept f g (step_index page_count n) k (pages k) outside (other_page n k z ne)
            (p.body k z (omega (arith, ne)) c)
    ];
    first = λ z m.
        let e : n ≡ page_count = ground (arith, l, z) in
        let (i, b) = later_step n 0 (omega arith) (ground (arith, e)) in rw (i, b) at inside;
    beyond = λ a h.
        let away : a / page_size ≢ step_index page_count n * 128 / page_size =
          λ e. absurd (ground (arith, e, l)) in
        outside a away ∙ p.beyond a h;
  }

  -- Behind the last step, every page is there.
  pub Progress-pages :
      (f : F)
      → Progress (step_count page_count) f
      → (k : ℕ) → k < page_count
      → PageIs hw f (k * 128) (pages k)
  Progress-pages f p zero l = p.first l (ground (arith, l))
  Progress-pages f p (suc k) l = p.body (suc k) (omega arith) (ground (arith, l)) l
