-- ===== src/Results/Exchange.antt =====
-- src/iperf_api.c: `iperf_exchange_results`.
use iperf.Base.{◌≡◌, Bool, true, false, Option, if◌then◌else◌}
use iperf.Results.{Double, Message, IperfTest, is_client}
use iperf.Results.Report.{send_results}
use iperf.Results.Receive.{get_results}

abbrev pub both_steps : {X : Type 0} → (X → Bool × X) → (X → Bool × X) → X → Bool × X
both_steps first second x = let (ok, x') = first x in if ok then second x' else (false, x')

pub both_steps_ok :
    {X : Type 0} (first second : X → Bool × X) (x : X)
    → (first x).0 ≡ true
    → both_steps first second x ≡ second (first x).1
both_steps_ok first second x e = rw e

pub both_steps_failed :
    {X : Type 0} (first second : X → Bool × X) (x : X)
    → (first x).0 ≡ false
    → both_steps first second x ≡ (false, (first x).1)
both_steps_failed first second x e = rw e

module _ (D : Double) where
  -- The client sends first, the server reads first.
  unfoldable pub exchange_results :
      {W : Type 0}
      → (Message D → W → Bool × W)
      → (W → Option (Message D) × W)
      → IperfTest D × W
      → Bool × (IperfTest D × W)
  unfolding send_results get_results
  exchange_results json_write json_read (t, w) =
      if is_client t.role
      then both_steps (send_results D json_write) (get_results D json_read) (t, w)
      else both_steps (get_results D json_read) (send_results D json_write) (t, w)
