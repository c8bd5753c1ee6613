-- ===== src/Proc/Exit/Close.antt =====
-- exit() before it takes the lock: its files and its directory are given back by calls during which other
-- processes may run.
use fp_sisop20_b.Prelude.{
  ℕ, ◌≤◌, ◌≡◌, refl, sym, ap, ap₂, ◌∙◌, ◌⊎◌, inl, inr, List, [], ◌∷◌, ◌++◌, false, subst,
}
use fp_sisop20_b.Run.{ok, Cmd}
use fp_sisop20_b.StateList.{Ptr, Slot, max_priority}
use fp_sisop20_b.Proc.{Proc, running, Event, fileclose, iput, begin_op, end_op, State, put}
use fp_sisop20_b.Proc.Invariant.{InTable, slot_of, IsOrdered}
use fp_sisop20_b.Proc.Steps.{put_self, Inv-put}
use fp_sisop20_b.Proc.Exit.{Outside}

-- A process runs: the table is in order, and the lock is free with no pushcli open.
pub record Runs (s : State) : Type 0 where
  pub queue : Slot → List Ptr
  pub ordered : IsOrdered queue s.table
  pub in_table : InTable s.current
  pub is_running : (s.procs s.current).state ≡ running
  pub unlocked : s.sync.lock.locked ≡ false
  pub balanced : s.sync.cpu.ncli ≡ 0

abbrev pub OnTrace : Event → List Event → Type 0
OnTrace e [] = ⊥
OnTrace e (x ∷ xs) = (x ≡ e) ⊎ OnTrace e xs

abbrev pub mine : State → Proc
mine s = s.procs s.current

-- The same process runs later, after the events `es`.
pub record Later (es : List Event) (s s' : State) : Type 0 where
  pub current : s'.current ≡ s.current
  pub initproc : s'.initproc ≡ s.initproc
  pub trace : s'.trace ≡ es ++ s.trace
  pub runs : Runs s'

-- Call `e` is back: it stands among the events since, and its caller runs, with the files and the
-- directory that it had.
pub record Back (e : Event) (s s' : State) : Type 0 where
  pub events : List Event
  pub later : Later events s s'
  pub on : OnTrace e events
  pub files : (i : ℕ) → (mine s').ofile i ≡ (mine s).ofile i
  pub cwd : (mine s').cwd ≡ (mine s).cwd

-- A call, made by a running process, comes back.
abbrev pub ComesBack : Event → Cmd State (Unit {0}) → Type 0
ComesBack e op = (s : State) → Runs s → (s' : State) × (op s ≡ ok tt s') × Back e s s'

-- Each call notes itself on the trace.
pub record IsOutside (o : Outside) : Type 0 where
  pub closes : (f : ℕ) → ComesBack (fileclose f) (o.fileclose f)
  pub begins : ComesBack begin_op (o.begin_op)
  pub puts : (ip : ℕ) → ComesBack (iput ip) (o.iput ip)
  pub ends : ComesBack end_op (o.end_op)

append_assoc : (xs ys zs : List Event) → (xs ++ ys) ++ zs ≡ xs ++ (ys ++ zs)
append_assoc [] ys zs = refl
append_assoc (x ∷ xs) ys zs = ap (λ es. x ∷ es) (append_assoc xs ys zs)

pub OnTrace-left : (e : Event) (xs ys : List Event) → OnTrace e xs → OnTrace e (xs ++ ys)
OnTrace-left e [] ys on = absurd on
OnTrace-left e (x ∷ xs) ys (inl is) = inl is
OnTrace-left e (x ∷ xs) ys (inr on) = inr (OnTrace-left e xs ys on)

pub OnTrace-right : (e : Event) (xs ys : List Event) → OnTrace e ys → OnTrace e (xs ++ ys)
OnTrace-right e [] ys on = on
OnTrace-right e (x ∷ xs) ys on = inr (OnTrace-right e xs ys on)

pub Later-then :
    {es fs : List Event} {s t u : State} → Later es s t → Later fs t u → Later (fs ++ es) s u
Later-then {es} {fs} {s} a b = record {
  current = b.current ∙ a.current;
  initproc = b.initproc ∙ a.initproc;
  trace = b.trace ∙ ap (λ xs. fs ++ xs) a.trace ∙ sym (append_assoc fs es s.trace);
  runs = b.runs;
}

-- The state after a change of the running process.
abbrev pub changed : (Proc → Proc) → State → State
changed f s = record s { table = record (s.table) { procs = put s.procs s.current (f (mine s)) } }

pub changed-Later :
    (f : Proc → Proc) (s : State)
    → (f (mine s)).state ≡ (mine s).state
    → (f (mine s)).priority ≡ (mine s).priority
    → Runs s
    → Later [] s (changed f s)
changed-Later f s st pr r =
    let self = put_self s.procs s.current (f (mine s)) in
    record {
      current = refl;
      initproc = refl;
      trace = refl;
      runs = record {
        queue = r.queue;
        ordered =
            Inv-put r.queue 0 s.procs s.lists s.current (f (mine s)) r.ordered (ap₂ slot_of st pr)
              (subst (λ m. m ≤ max_priority) (sym pr) (r.ordered.bounded s.current));
        in_table = r.in_table;
        is_running = ap (λ (q : Proc). q.state) self ∙ st ∙ r.is_running;
        unlocked = r.unlocked;
        balanced = r.balanced;
      };
    }
