-- ===== src/Row/UpdateJob/Grade.antt =====
-- UnitUpdateJob.h and Master/DisplayTask.cpp: when an update job is graded ok.
use split_flap.Common.{ℕ, ◌≤◌, ◌≡◌, ◌↔◌, List, [], ◌∷◌, ◌++◌, true, false, All, length}
use split_flap.Row.Calls.{Hooks}
use split_flap.Row.Progress.{MaintOutcome, Progress, classify}
use split_flap.Row.Quiet.{taken_units}
use split_flap.Row.UpdateJob.{MaintGrade, grade_ok, SweepHooks, Sweep, Job}

-- A boot update that was graded ok.
abbrev pub Fine : ℕ × MaintGrade → Type 0
Fine (addr, grade) = grade_ok grade.outcome ≡ true

-- The units that a boot update was made on, oldest first.
abbrev pub updated_units : List (ℕ × MaintGrade) → List ℕ
updated_units [] = []
updated_units ((addr, grade) ∷ updates) = updated_units updates ++ addr ∷ []

-- Behind the boot updates of `done`, for a flash run that counted `took` and `lost`.
record IsSwept {W : Type 0} (took lost : ℕ) (done : List ℕ) (s : Sweep W) : Type 0 where
  pub counted : (s.progress.flashed ≡ took) × (s.progress.lost ≡ lost)
  pub few : s.progress.boot_failed ≤ length done
  pub streak : s.failures ≤ s.progress.boot_failed
  pub none_failed : s.progress.boot_failed ≡ 0 → All Fine s.updates
  pub all_fine : All Fine s.updates → s.progress.boot_failed ≡ 0
  pub made : updated_units s.updates ≡ done

-- The end of a sweep over `targets`.
record IsOver {W : Type 0} (took lost : ℕ) (targets : List ℕ) (s : Sweep W) : Type 0 where
  pub counted : (s.progress.flashed ≡ took) × (s.progress.lost ≡ lost)
  pub none_failed : s.progress.boot_failed ≡ 0 → All Fine s.updates
  pub all_fine : All Fine s.updates → s.progress.boot_failed ≡ 0
  pub made :
      s.was_cancelled ≡ false → s.progress.boot_failed ≡ 0 → updated_units s.updates ≡ targets

module _ {W : Type 0} (h : Hooks W) (g : SweepHooks W) (between : W → List ℕ × W) where
  -- What a job's grade says.
  abbrev Graded : List ℕ → Job W → Type 0
  Graded targets j =
      ((classify j.progress ≡ MaintOutcome.ok)
        ↔ ((j.was_cancelled ≡ false) × (taken_units j.run.ctx.log ≡ targets) × All Fine j.updates))
      × (classify j.progress ≡ MaintOutcome.ok
          → updated_units j.updates ≡ (between j.run.ctx.world).0)
