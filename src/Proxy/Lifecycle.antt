-- ===== src/Proxy/Lifecycle.antt =====
-- orchestration/proxy/proxy.go: Start, Stop and teardownKernel. What each call to the kernel answers
-- is an argument; the state is what the proxy holds in the kernel.
use csfleet.Prelude.{◌≡◌, ◌⊎◌, Bool, true, false, not, if◌then◌else◌, arith}

-- The answers of setConntrackUDPTimeouts, installTable, installDockerUser, conntrack.Dial,
-- nfqueue.Open and RegisterWithErrorFunc, and of removeDockerUser, which only gets logged.
pub record Answers : Type 0 where
  pub timeouts : Bool
  pub table : Bool
  pub docker_user : Bool
  pub dial : Bool
  pub queue : Bool
  pub register : Bool
  pub remove_rule : Bool

-- The nft table, the DOCKER-USER rule, the conntrack socket, the queue, and the running callback
-- with the sweep loop.
pub record Held : Type 0 where
  pub table : Bool
  pub rule : Bool
  pub conntrack : Bool
  pub queue : Bool
  pub serving : Bool

abbrev pub nothing : Held
nothing = record { table = false; rule = false; conntrack = false; queue = false; serving = false }

abbrev pub everything : Held
everything = record { table = true; rule = true; conntrack = true; queue = true; serving = true }

teardown_kernel : Answers → Held → Held
teardown_kernel o h = record h { rule = (if o.remove_rule then false else h.rule); table = false }

start_register : Answers → Held → Held × Bool
unfolding teardown_kernel
start_register o h =
    if o.register
    then (record h { serving = true }, true)
    else (teardown_kernel o (record h { queue = false; conntrack = false }), false)

start_queue : Answers → Held → Held × Bool
unfolding start_register
start_queue o h =
    if o.queue
    then start_register o (record h { queue = true })
    else (teardown_kernel o (record h { conntrack = false }), false)

start_dial : Answers → Held → Held × Bool
unfolding start_queue
start_dial o h =
    if o.dial then start_queue o (record h { conntrack = true }) else (teardown_kernel o h, false)

start_rule : Answers → Held → Held × Bool
unfolding start_dial
start_rule o h =
    if o.docker_user
    then start_dial o (record h { rule = true })
    else (record h { table = false }, false)

-- installTable removes an old table first, and installs the new one in one transaction.
unfoldable pub start : Answers → Held → Held × Bool
unfolding start_rule
start o h =
    if not o.timeouts
    then (h, false)
    else if o.table
    then start_rule o (record h { table = true })
    else (record h { table = false }, false)

-- Stop: whatever is open is closed, then the kernel is torn down.
unfoldable pub stop : Answers → Held → Held
unfolding teardown_kernel
stop o h = teardown_kernel o (record h { serving = false; queue = false; conntrack = false })

-- Start on a clean host takes everything or nothing: if any of its steps fails, it reports failure
-- and has given back what the steps before it took, as long as iptables deletes the rule.
pub start_all_or_nothing :
    (o : Answers)
    → o.remove_rule ≡ true
    → (start o nothing ≡ (everything, true)) ⊎ (start o nothing ≡ (nothing, false))
unfolding start
start_all_or_nothing o h = ground arith

-- Stop after a Start on a clean host, successful or not, leaves nothing behind, as long as iptables
-- deletes the rule when asked to.
pub stop-start :
    (o q : Answers)
    → o.remove_rule ≡ true
    → q.remove_rule ≡ true
    → stop q (start o nothing).0 ≡ nothing
unfolding start stop
stop-start o q h k = ground arith
