-- ===== src/Host/RequestUsageSettler/Examples.antt =====
-- The settler at a concrete run.
use dsh_liangxiang.Prelude.{ℕ, ◌≡◌, refl, some, List, [], ◌∷◌, map, arith, nat, All}
use dsh_liangxiang.Host.UsageLedger.Replays.{IsThrough}
use dsh_liangxiang.Host.RequestUsageSettler.{
  Route, Sample, UsageEvent, routed, started, sampled_chunk, finished, ended, DshUsageEvent,
  new_settler,
}
use dsh_liangxiang.Host.RequestUsageSettler.Batches.{collect, IsChain, collect-IsChain}

abbrev event : ℕ → UsageEvent → DshUsageEvent
event seq body = record { seq = nat seq; time = nat 700; body = body }

abbrev route : Route
route = record { provider = []; model = b'm' ∷ [] }

abbrev sample : Sample
sample = record { input_tokens = 40; output_tokens = 2 }

-- A step with a chunk and an end, a repeated event, and a step that is finished by a message.
abbrev events : List DshUsageEvent
events =
    event 0 (routed route)
    ∷ event 1 (started 1 1)
    ∷ event 2 (sampled_chunk 1 1 (some sample))
    ∷ event 3 (ended 1 1)
    ∷ event 3 (ended 1 1)
    ∷ event 4 (started 1 2)
    ∷ event 6 (finished 1 2 (some (some sample)) route)
    ∷ []

two_settled : map (λ r. r.end_offset) (collect new_settler events).0 ≡ 4 ∷ 7 ∷ []
unfolding collect
two_settled = refl

collect-IsChain_example :
    let (requests, last) = collect new_settler events in
    IsChain 0 last.through_offset requests × All (IsThrough last.through_offset) requests
collect-IsChain_example = collect-IsChain 0 new_settler events (omega arith, tt)
