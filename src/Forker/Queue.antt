-- ===== src/Forker/Queue.antt =====
-- src/utils/forker.c: the table of children and the loop over messages.
use whitefield.Base.{
  ℕ, zero, suc, Bool, Option, none, some, List, [], ◌∷◌, ◌++◌, Bytes, length, set, ltb, ◌==◌,
  if◌then◌else◌,
}
use whitefield.Base.Int.{ℤ, pos, negsuc}
use whitefield.Commline.Message.{MsgBuf}
use whitefield.Forker.{Exec, Forked, running, failed, fault, fork_n_exec}

abbrev pub max_child_process : ℕ
max_child_process = 2000

-- The pids of `g_child_info`, and the programs that were started, oldest first.
pub record Children : Type 0 where
  pub pids : List ℤ
  pub started : List (ℕ × Exec)

-- What a message or the loop comes to: the loop goes on, it has ended after a signal to each of
-- some children, or a write behind the end of an array.
pub data Forking : Type 0 where
  going_on : Children → Forking
  quit : Children → List ℤ → Forking
  overrun : Forking

-- A pid above 0.
abbrev live : List ℤ → List ℤ
live [] = []
live (pos (suc n) ∷ pids) = pos (suc n) ∷ live pids
live (pos zero ∷ pids) = live pids
live (negsuc n ∷ pids) = live pids

-- The children that get SIGINT.
unfoldable pub killall_childprocess : Children → List ℤ
killall_childprocess f = live f.pids

abbrev ended : Children → Forking
ended f = quit f (killall_childprocess f)

-- `fork` answers with a pid, or with a negative number.
abbrev pub forked : ℕ → Exec → ℤ → Children → Forking
forked id x (negsuc n) f = ended (record f { pids = set f.pids id (negsuc n) })
forked id x (pos pid) f =
    going_on (record { pids = set f.pids id (pos pid); started = f.started ++ (id, x) ∷ [] })

abbrev pub with_child : ℕ → (ℕ → Exec → ℤ) → Children → Forked → Forking
with_child id fork f (running x) =
    if ltb id (length f.pids) then forked id x (fork id x) f else overrun
with_child id fork f failed = ended f
with_child id fork f fault = overrun

module _ (exists : Bytes → Bool) (fork : ℕ → Exec → ℤ) where
  abbrev pub with_message : Option MsgBuf → Children → Forking
  with_message none f = ended f
  with_message (some mbuf) f =
      if mbuf.len == 0
      then going_on f
      else with_child mbuf.src_id fork f (fork_n_exec exists mbuf.buf)

  abbrev pub next : (Children → Forking) → Forking → Forking
  next go_on (going_on f) = go_on f
  next go_on other = other

  -- The loop on what is received, `none` being a failure; when everything is handled it waits.
  unfoldable pub wait_on_q : List (Option MsgBuf) → Children → Forking
  unfolding fork_n_exec killall_childprocess
  wait_on_q [] f = going_on f
  wait_on_q (arrival ∷ arrivals) f = next (λ f'. wait_on_q arrivals f') (with_message arrival f)
