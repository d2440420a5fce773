-- ===== src/Bus/Flash/Session/Contents.antt =====
-- firmware/v2/shared/UnitBusTwiboot.h: what the sessions of a flash put into a unit's pages, and in
-- which order.
use split_flap.Common.{
  ℕ, zero, suc, ◌+◌, ◌*◌, ◌/◌, ◌%◌, ◌<◌, ◌≤◌, ◌≡◌, ◌≢◌, refl, sym, ap, ◌∙◌, inl, inr, Option, none,
  some, List, [], ◌∷◌, Bool, true, false, ◌&&◌, ◌==◌, ltb, if◌then◌else◌, Bool-cases, ==_iff,
  length, arith,
}
use split_flap.Bus.Twiboot.{page_bytes, hold_page}
use split_flap.Bus.Flash.{step_index, step_page, step_addr, step_count}
use split_flap.Bus.Flash.Trace.{Event, sent}
use split_flap.Bus.Flash.Session.{
  Phase, at, left, Session, opened, polled, asked, answered, burst, confirmed, exited, woken,
  restarted,
}

-- The bytes of a page write, and whether an event is one, to this unit and place of the flash.
unfoldable payload : Event → List ℕ
payload (sent a (_ ∷ _ ∷ _ ∷ _ ∷ bytes) stop status) = bytes
payload _ = []

unfoldable hits : ℕ → ℕ → Event → Bool
hits addr flash_addr (sent a (command ∷ kind ∷ hi ∷ lo ∷ bytes) stop status) =
    ltb 0 (length bytes)
    && stop
    && a == addr
    && command == 2
    && kind == 1
    && hi * 256 + lo == flash_addr
hits addr flash_addr _ = false

-- What was put into a page last, of a log that starts with its newest event.
unfoldable pub last_burst : ℕ → ℕ → List Event → Option (List ℕ)
unfolding payload hits
last_burst addr flash_addr [] = none
last_burst addr flash_addr (e ∷ l) =
    if hits addr flash_addr e then some (payload e) else last_burst addr flash_addr l

module _ (addr : ℕ) (pages : ℕ → List ℕ) (page_count : ℕ)
    (whole : (k : ℕ) → length (pages k) ≡ page_bytes) (fits : page_count ≤ 248) where
  step_page-length : (n : ℕ) → length (step_page pages page_count n) ≡ page_bytes
  unfolding step_page hold_page
  step_page-length zero = refl
  step_page-length (suc n) =
      let e : (suc n == 0) ≡ false = ground arith in rw e (whole (step_index page_count (suc n)))

  step_addr_lem :
      (n : ℕ) → n < step_count page_count → step_addr page_count n ≡ step_index page_count n * 128
  unfolding step_addr step_index
  step_addr_lem n h = ground arith

  last_burst-step :
      (n status flash_addr : ℕ) (l : List Event)
      → n < step_count page_count
      → last_burst addr flash_addr (
          sent addr
            (2
              ∷ 1
              ∷ (step_addr page_count n / 256 % 256)
              ∷ (step_addr page_count n % 256)
              ∷ step_page pages page_count n)
            true
            status
          ∷ l)
        ≡ (if step_addr page_count n == flash_addr
            then some (step_page pages page_count n)
            else last_burst addr flash_addr l)
  unfolding last_burst payload hits step_addr
  last_burst-step n status flash_addr l h = ground (arith, step_page-length n)

  -- What is in the pages while `n` steps are confirmed; `written` that step `n` was sent since.
  pub record Progress (n : ℕ) (written : Bool) (l : List Event) : Type 0 where
    pub bounded : n ≤ step_count page_count
    pub untouched : n ≡ 0 → written ≡ false → last_burst addr 0 l ≡ none
    pub current :
        written ≡ true
        → n < step_count page_count
          × (last_burst addr (step_addr page_count n) l ≡ some (step_page pages page_count n))
    pub body :
        (k : ℕ) → 0 < k → k < n → k < page_count → last_burst addr (k * 128) l ≡ some (pages k)
    pub front :
        0 < n
        → n ≤ page_count
        → (n ≡ page_count → written ≡ false)
        → last_burst addr 0 l ≡ some hold_page
    pub closed : page_count < n → last_burst addr 0 l ≡ some (pages 0)

  unfoldable pub Holds : Phase → List Event → Type 0
  Holds (at n written) l = Progress n written l
  Holds left l = (k : ℕ) → k < page_count → last_burst addr (k * 128) l ≡ some (pages k)

  -- An event that is no page write changes nothing.
  Progress-quiet :
      (n : ℕ) (written : Bool) (e : Event) (l : List Event)
      → ((flash_addr : ℕ) → last_burst addr flash_addr (e ∷ l) ≡ last_burst addr flash_addr l)
      → Progress n written l
      → Progress n written (e ∷ l)
  Progress-quiet n written e l same p = record {
    bounded = p.bounded;
    untouched = λ z f. same 0 ∙ p.untouched z f;
    current = λ w. let (b, c) = p.current w in (b, same _ ∙ c);
    body = λ k z m c. same (k * 128) ∙ p.body k z m c;
    front = λ z m f. same 0 ∙ p.front z m f;
    closed = λ m. same 0 ∙ p.closed m;
  }

  Holds-quiet :
      (p : Phase) (e : Event) (l : List Event)
      → ((flash_addr : ℕ) → last_burst addr flash_addr (e ∷ l) ≡ last_burst addr flash_addr l)
      → Holds p l
      → Holds p (e ∷ l)
  unfolding Holds
  Holds-quiet (at n written) e l same h = Progress-quiet n written e l same h
  Holds-quiet left e l same h = λ k m. same (k * 128) ∙ h k m

  abbrev burst_of : ℕ → ℕ → Event
  burst_of n status =
      sent addr
        (2
          ∷ 1
          ∷ (step_addr page_count n / 256 % 256)
          ∷ (step_addr page_count n % 256)
          ∷ step_page pages page_count n)
        true status

  -- A step leaves the other pages, and its own bytes in its page.
  burst-other :
      (n status k : ℕ) (l : List Event)
      → n < step_count page_count
      → k ≢ step_index page_count n
      → last_burst addr (k * 128) (burst_of n status ∷ l) ≡ last_burst addr (k * 128) l
  burst-other n status k l h d =
      ground (arith, last_burst-step n status (k * 128) l h, step_addr_lem n h)

  burst-own :
      (n status : ℕ) (l : List Event)
      → n < step_count page_count
      → last_burst addr (step_addr page_count n) (burst_of n status ∷ l)
        ≡ some (step_page pages page_count n)
  burst-own n status l h = ground (arith, last_burst-step n status (step_addr page_count n) l h)

  Progress-burst :
      (n status : ℕ) (written : Bool) (l : List Event)
      → n < step_count page_count
      → Progress n written l
      → Progress n true (burst_of n status ∷ l)
  unfolding step_index
  Progress-burst n status written l h p = record {
    bounded = p.bounded;
    untouched = λ z f. ground arith;
    current = λ w. (h, burst-own n status l h);
    body = λ k z m c. burst-other n status k l h (ground arith) ∙ p.body k z m c;
    front = λ z m f.
        burst-other n status 0 l h (ground arith) ∙ p.front z m (λ e. absurd (ground (arith, f e)));
    closed = λ m. absurd (ground (arith, h));
  }

  -- The write of step `n` at the page of its index.
  own_page :
      (n k : ℕ) (page : List ℕ) (l : List Event)
      → Progress n true l
      → step_index page_count n ≡ k
      → step_page pages page_count n ≡ page
      → last_burst addr (k * 128) l ≡ some page
  own_page n k page l p i e =
      let (h, own) = p.current refl in
      let place : step_addr page_count n ≡ k * 128 = step_addr_lem n h ∙ ap (λ j. j * 128) i in
      ap (λ a. last_burst addr a l) (sym place) ∙ own ∙ ap some e

  step_inside :
      (n : ℕ)
      → 0 < n
      → n < page_count
      → (step_index page_count n ≡ n) × (step_page pages page_count n ≡ pages n)
  unfolding step_index step_page
  step_inside n z h = (ground arith, ground arith)

  step_last :
      (n : ℕ)
      → 0 < n
      → n ≡ page_count
      → (step_index page_count n ≡ 0) × (step_page pages page_count n ≡ pages 0)
  unfolding step_index step_page
  step_last n z h = (ground arith, ground arith)

  step_first : (step_index page_count 0 ≡ 0) × (step_page pages page_count 0 ≡ hold_page)
  unfolding step_index step_page
  step_first = (ground arith, ground arith)

  pub first_written : (l : List Event) → Progress 0 true l → last_burst addr 0 l ≡ some hold_page
  first_written l p = own_page 0 0 hold_page l p step_first.0 step_first.1

  Progress-confirmed : (n : ℕ) (l : List Event) → Progress n true l → Progress (suc n) false l
  Progress-confirmed n l p =
      let h = (p.current refl).0 in
      let n_le : n ≤ page_count = ground (arith, h) in
      let some_page : 0 < page_count = ground (arith, h) in
      record {
        bounded = omega (arith, h);
        untouched = λ z f. absurd (omega arith);
        current = λ w. absurd (ground arith);
        body = λ k z m c. elim (Bool-cases (k == n)) [
          | inl e ↦
              let same : k ≡ n = (==_iff k n).0 e in
              let (i, page) = step_inside n (omega arith) (omega arith) in
              own_page n k (pages k) l p (i ∙ sym same) (page ∙ ap pages (sym same))
          | inr e ↦ p.body k z (ground arith) c
        ];
        front = λ z m f. elim (Bool-cases (n == 0)) [
          | inl e ↦
              let zero_ : n ≡ 0 = (==_iff n 0).0 e in
              let (i, page) = step_first in
              own_page n 0 hold_page l p (ap (step_index page_count) zero_ ∙ i)
                (ap (step_page pages page_count) zero_ ∙ page)
          | inr e ↦ p.front (ground arith) (omega arith) (λ e. absurd (omega arith))
        ];
        closed = λ m.
            let (i, page) = step_last n (omega arith) (omega arith) in
            own_page n 0 (pages 0) l p i page;
      }

  finished_pages : (l : List Event) → Progress (step_count page_count) false l → Holds left l
  unfolding Holds
  finished_pages l p k c = elim (Bool-cases (k == 0)) [
    | inl e ↦
        let zero_ : k ≡ 0 = (==_iff k 0).0 e in
        let e' : page_count < step_count page_count = ground arith in rw zero_ (p.closed e')
    | inr e ↦ p.body k (ground arith) (ground arith) c
  ]

  pub Session-Holds : {p : Phase} {l : List Event} → Session addr pages page_count p l → Holds p l
  unfolding Holds last_burst hits
  Session-Holds opened = record {
    bounded = omega arith;
    untouched = λ z f. refl;
    current = λ w. absurd (ground arith);
    body = λ k z m c. absurd (omega arith);
    front = λ z m f. absurd (omega arith);
    closed = λ m. absurd (omega arith);
  }
  Session-Holds (polled status s) = Holds-quiet _ _ _ (λ a. refl) (Session-Holds s)
  Session-Holds (asked kind hi lo status s) = Holds-quiet _ _ _ (λ a. refl) (Session-Holds s)
  Session-Holds (answered command bytes s) = Holds-quiet _ _ _ (λ a. refl) (Session-Holds s)
  Session-Holds (burst n written status h s) = Progress-burst n status written _ h (Session-Holds s)
  Session-Holds (confirmed n status s) =
      Progress-quiet (suc n) false _ _ (λ a. refl)
        (Progress-quiet (suc n) false _ _ (λ a. refl) (Progress-confirmed n _ (Session-Holds s)))
  Session-Holds (exited status s) = finished_pages _ (Session-Holds s)
  Session-Holds (woken status s) = Session-Holds s
  Session-Holds (restarted status s) = Session-Holds s
