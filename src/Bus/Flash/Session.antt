-- ===== src/Bus/Flash/Session.antt =====
-- firmware/v2/shared/UnitBusTwiboot.h: the traffic that a flash may put on the bus, as a relation,
-- and the steps of the client that keep to it.
pub mod Page
pub mod Runs
pub mod Contents
use split_flap.Common.{
  ℕ, zero, suc, ◌+◌, ◌<◌, ◌≡◌, refl, ap, ap₂, Option, none, some, List, [], ◌∷◌, ◌++◌, Bool, true,
  false, not, ◌&&◌, ◌==◌, ◌!=◌, ltb, if◌then◌else◌, if_both, if_known, Bool-cases, length, arith,
  sub32, u32,
}
use split_flap.Wire.Cmd
use split_flap.Wire.Contract.{no_arg_guard_byte}
use split_flap.Bus.Adapter.{Bus, transmit}
use split_flap.Bus.Twiboot.{
  TwibootStep, ok, is_ok, page_bytes, page_read_attempts, wait_command, exit_command, flash_command,
  same_bytes, ping, poll_until, wait_ready, await_bootloader_in, await_bootloader, ask, verify_chip,
  read_flash_page, write_flash_page, read_back, page_attempts, flash_and_verify_page,
}
use split_flap.Bus.Flash.{step_page, step_addr, step_count}
use split_flap.Bus.Flash.Quiet.{
  IsQuiet, wait_ready-quiet, await_bootloader-quiet, verify_chip-quiet,
}
use split_flap.Bus.Flash.Trace.{Event, sent, got, Traced, traced}

-- `at n written`: `n` steps are confirmed, and `written` that step `n` was put on the bus since.
-- `left`: the bootloader was told to start the sketch.
pub data Phase : Type 0 where
  at : ℕ → Bool → Phase
  left : Phase

-- The write of step `n`, and its command.
abbrev pub step_command : ℕ → ℕ → List ℕ
step_command page_count n = flash_command (step_addr page_count n)

abbrev pub step_burst : (ℕ → List ℕ) → ℕ → ℕ → List ℕ
step_burst pages page_count n = step_command page_count n ++ step_page pages page_count n

-- The logs of a flash, newest event first.
pub data Session (addr : ℕ) (pages : ℕ → List ℕ) (page_count : ℕ)
    : Phase → List Event → Type 0 where
  opened : Session addr pages page_count (at 0 false) []
  polled :
      {p : Phase} {l : List Event} (status : ℕ)
      → Session addr pages page_count p l
      → Session addr pages page_count p (sent addr wait_command true status ∷ l)
  asked :
      {p : Phase} {l : List Event} (kind hi lo status : ℕ)
      → Session addr pages page_count p l
      → Session addr pages page_count p (sent addr (2 ∷ kind ∷ hi ∷ lo ∷ []) false status ∷ l)
  answered :
      {p : Phase} {l : List Event} (command bytes : List ℕ)
      → Session addr pages page_count p l
      → Session addr pages page_count p (got addr command bytes ∷ l)
  burst :
      {l : List Event} (n : ℕ) (written : Bool) (status : ℕ)
      → n < step_count page_count
      → Session addr pages page_count (at n written) l
      → Session addr pages page_count
          (at n true)
          (sent addr (step_burst pages page_count n) true status ∷ l)
  confirmed :
      {l : List Event} (n status : ℕ)
      → Session addr pages page_count (at n true) l
      → Session addr pages page_count (at (suc n) false) (
          got addr (step_command page_count n) (step_page pages page_count n)
          ∷ sent addr (step_command page_count n) false status
          ∷ l)
  exited :
      {l : List Event} (status : ℕ)
      → Session addr pages page_count (at (step_count page_count) false) l
      → Session addr pages page_count left (sent addr exit_command true status ∷ l)
  woken :
      {l : List Event} (status : ℕ)
      → Session addr pages page_count left l
      → Session addr pages page_count left (sent addr [] true status ∷ l)
  restarted :
      {l : List Event} (status : ℕ)
      → Session addr pages page_count left l
      → Session addr pages page_count left
          (sent addr (Cmd.reboot ∷ no_arg_guard_byte Cmd.reboot ∷ []) true status ∷ l)

pub same_bytes-≡ : (xs ys : List ℕ) → same_bytes xs ys ≡ true → xs ≡ ys
unfolding same_bytes
same_bytes-≡ [] [] h = refl
same_bytes-≡ [] (y ∷ ys) h = ground arith
same_bytes-≡ (x ∷ xs) [] h = ground arith
same_bytes-≡ (x ∷ xs) (y ∷ ys) h =
    let first : x ≡ y = ground arith in
    let rest : same_bytes xs ys ≡ true = ground arith in
    ap₂ (λ z zs. z ∷ zs) first (same_bytes-≡ xs ys rest)

module _ {W : Type 0} (bus : Bus W) (addr : ℕ) (pages : ℕ → List ℕ) (page_count : ℕ) where
  -- A session that step `n` has still to bring to its end.
  abbrev pub Open : ℕ → List Event → Type 0
  Open n l = (written : Bool) × Session addr pages page_count (at n written) l

  Session-IsQuiet : (p : Phase) → IsQuiet bus addr (Session addr pages page_count p)
  Session-IsQuiet p = record {
    polls = λ status l s. polled status s;
    asks = λ kind hi lo status l s. asked kind hi lo status s;
    answers = λ command bytes l s. answered command bytes s;
  }

  pub wait_ready-Session :
      (p : Phase) (timeout : ℕ) (t : Traced W)
      → Session addr pages page_count p t.log
      → Session addr pages page_count p (wait_ready (traced bus) addr timeout t).1.log
  wait_ready-Session p timeout t s = wait_ready-quiet bus addr _ (Session-IsQuiet p) timeout t s

  pub await_bootloader-Session :
      (p : Phase) (t : Traced W)
      → Session addr pages page_count p t.log
      → Session addr pages page_count p (await_bootloader (traced bus) addr t).1.log
  await_bootloader-Session p t s = await_bootloader-quiet bus addr _ (Session-IsQuiet p) t s

  pub verify_chip-Session :
      (p : Phase) (t : Traced W)
      → Session addr pages page_count p t.log
      → Session addr pages page_count p (verify_chip (traced bus) addr t).1.log
  verify_chip-Session p t s = verify_chip-quiet bus addr _ (Session-IsQuiet p) t s
