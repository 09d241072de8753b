-- ===== src/Agent/Initializer/Links.antt =====
-- The wait for the gateway's link in setupGatewayInterface of pkg/agent/agentFunc.go.
use ciccni.Base.{ℕ, zero, suc, ◌<◌, String, ◌≡◌, arith, ok}
use ciccni.Agent.Initializer.{Link, Host, link, missing, max_retry_for_host_link, wait_for_link}

-- LinkByName finds no link that many times in a row, with a pause after each try.
pub data Misses {H : Type 0} (ops : Host H) (name : String) : ℕ → H → H → Type 0 where
  none_yet : (h : H) → Misses ops name zero h h
  missed :
      (k : ℕ) (h h1 h2 : H)
      → ops.link_by_name name h ≡ (missing, h1)
      → Misses ops name k (ops.sleep h1) h2
      → Misses ops name (suc k) h h2

wait_for_link-Misses :
    {H : Type 0} (ops : Host H) (name : String) (n k : ℕ) {h h' h'' : H} {l : Link}
    → k < n
    → Misses ops name k h h'
    → ops.link_by_name name h' ≡ (link l, h'')
    → wait_for_link ops n name h ≡ (ok l, h'')
unfolding wait_for_link
wait_for_link-Misses ops name zero k lt m e = absurd (omega arith)
wait_for_link-Misses ops name (suc n) zero lt (none_yet h) e = rw e
wait_for_link-Misses ops name (suc n) (suc k) lt (missed _ h h1 h2 first rest) e =
    rw first (wait_for_link-Misses ops name n k (omega arith) rest e)

-- If the link is there after fewer than five tries that miss it, then the wait ends with that link,
-- in the state that the try which finds it leaves.
pub wait_for_link-link :
    {H : Type 0} (ops : Host H) (name : String) (k : ℕ) {h h' h'' : H} {l : Link}
    → k < max_retry_for_host_link
    → Misses ops name k h h'
    → ops.link_by_name name h' ≡ (link l, h'')
    → wait_for_link ops max_retry_for_host_link name h ≡ (ok l, h'')
wait_for_link-link ops name k lt m e = wait_for_link-Misses ops name 5 k lt m e
