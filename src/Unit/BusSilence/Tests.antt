-- ===== src/Unit/BusSilence/Tests.antt =====
-- A unit whose master fell silent after its last frame at 1000 ms.
use split_flap.Common.{ℕ, ◌≤◌, refl, [], ◌∷◌, true, false}
use split_flap.Wire.BusRecord.{BusRecord}
use split_flap.Unit.BusSilence.{BusSilence, Sample, fresh}
use split_flap.Unit.BusSilence.Restart.{asks, restarts_once}
use split_flap.Unit.BusSilence.Wear.{silence_saves_bounded}

-- A unit in contact, with the last frame at 1000 ms.
abbrev in_contact : BusSilence
in_contact = record fresh { last_frames = 9; contact_frames = 8; heard_ms = 1000 }

abbrev empty_record : BusRecord
empty_record = record {
  silences = 0;
  last_minutes = 0;
  longest_minutes = 0;
  reinits = 0;
  reinits_heard = 0;
  self_restarts = 0;
  flags = 0;
}

-- A pass without a frame at `ms`, behind an open gate.
abbrev unheard : ℕ → Sample
unheard ms = record {
  frames = 9;
  line_low = false;
  traffic = true;
  restart_allowed = true;
  now_ms = ms;
}

restarts_once_example :
    asks
      (λ t. t.restart)
      in_contact
      empty_record
      (unheard 200000 ∷ unheard 1300000 ∷ unheard 1900000 ∷ [])
    ≤ 1
restarts_once_example =
    restarts_once in_contact empty_record (unheard 200000 ∷ unheard 1300000 ∷ unheard 1900000 ∷ [])
      9 refl (refl, (refl, (refl, tt)))

silence_saves_bounded_example :
    asks
      (λ t. t.save)
      in_contact
      empty_record
      (unheard 200000 ∷ unheard 1300000 ∷ unheard 1900000 ∷ [])
    ≤ 12
silence_saves_bounded_example =
    silence_saves_bounded in_contact empty_record
      (unheard 200000 ∷ unheard 1300000 ∷ unheard 1900000 ∷ []) 9 refl refl
      (refl, (refl, (refl, tt)))

abbrev silent : BusSilence
silent = record in_contact { silent = true; saved_minutes = 6 }
