-- ===== src/Examples/Routing.antt =====
-- Picking members and keeping clients, at concrete inputs.
use proxyfleet.Base.{◌≡◌, refl, none, Bool, true, false, List, [], ◌∷◌, Bytes, pos, codes}
use proxyfleet.Pool.Selection.{Candidate}
use proxyfleet.Pool.Pick.{round_robin, select_by, select_round_robin}
use proxyfleet.Pool.Sticky.{StickyCache, new_sticky_cache}
use proxyfleet.Pool.Sticky.Laws.{Call, gets, sets, run, IsValid, run-IsValid, new-IsValid}

abbrev candidate : Bool → Candidate
candidate eligible = record { id = 1; eligible = eligible; active = 2; latency = 30 }

abbrev quick : Candidate
quick = record { id = 2; eligible = true; active = 5; latency = 10 }

abbrev three : List Candidate
three = candidate false ∷ candidate true ∷ quick ∷ []

-- Where the counter wraps within the pick, the loop visits 0, 0 and 1, and the last one is missed.
missed_at_wrap :
    (select_by round_robin 0 4294967295 (candidate false ∷ candidate false ∷ quick ∷ [])).0 ≡ none
unfolding select_by select_round_robin
missed_at_wrap = refl

abbrev client : Bytes
client = codes "192.0.2.7"

abbrev cache : StickyCache
cache = new_sticky_cache (pos 100) (pos 1)

abbrev calls : List Call
calls = sets client (codes "a") 10 ∷ sets (codes "other") (codes "b") 20 ∷ gets client 30 ∷ []

run-IsValid_example : IsValid (run cache calls)
run-IsValid_example = run-IsValid cache calls (new-IsValid (pos 100) (pos 1))
