-- ===== src/Memory/Tests.antt =====
-- Runs of the ring, and its theorems at concrete rings.
use wlog.Base.{ℕ, ◌+◌, ◌≡◌, refl, [], ◌∷◌, ◌++◌, length}
use wlog.Base.Int.{pos, negsuc}
use wlog.Memory.{Memory, new, send, send_all, snapshot, subscribe, clear}
use wlog.Memory.Window.{IsValid, new-IsValid, newest, snapshot-send_all, clear-IsValid}
use wlog.Memory.Fanout.{held, send-conserves}

abbrev small : Memory ℕ
small = new (pos 3)

wraps_around : snapshot (send_all small (1 ∷ 2 ∷ 3 ∷ 4 ∷ 5 ∷ [])) ≡ 3 ∷ 4 ∷ 5 ∷ []
unfolding send_all send snapshot new
wraps_around = refl

default_for_negative : (new {A = ℕ} (negsuc 4)).size ≡ 1000
unfolding new
default_for_negative = refl

snapshot-send_all_example :
    snapshot (send_all small (1 ∷ 2 ∷ 3 ∷ 4 ∷ []))
    ≡ newest small.size (snapshot small ++ 1 ∷ 2 ∷ 3 ∷ 4 ∷ [])
snapshot-send_all_example = snapshot-send_all small (1 ∷ 2 ∷ 3 ∷ 4 ∷ []) (new-IsValid (pos 3))

clear-IsValid_example : IsValid (clear small) × (snapshot (clear small) ≡ [])
clear-IsValid_example = clear-IsValid small (new-IsValid (pos 3))

abbrev followed : Memory ℕ
followed = subscribe (subscribe small)

send-conserves_example :
    held (send followed 7).subs + (send followed 7).dropped
    ≡ held followed.subs + followed.dropped + length followed.subs
send-conserves_example = send-conserves followed 7
