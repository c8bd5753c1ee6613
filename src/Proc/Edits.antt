-- ===== src/Proc/Edits.antt =====
-- A write to one process that keeps it on its list.
use fp_sisop20_b.Prelude.{◌≤◌, ◌≡◌, ◌≢◌, refl, List}
use fp_sisop20_b.StateList.{Ptr, Slot, max_priority}
use fp_sisop20_b.Proc.{Proc, Table, put}
use fp_sisop20_b.Proc.Invariant.{home, IsOrdered}
use fp_sisop20_b.Proc.Steps.{Inv-put, put_self, put_ne}

-- The table after `edit p f`.
unfoldable pub edited : Table → Ptr → (Proc → Proc) → Table
edited t p f = record t { procs = put t.procs p (f (t.procs p)) }

pub edited_self : (t : Table) (p : Ptr) (f : Proc → Proc) → (edited t p f).procs p ≡ f (t.procs p)
unfolding edited
edited_self t p f = put_self t.procs p _

pub edited_ne :
    (t : Table) (p : Ptr) (f : Proc → Proc) (r : Ptr) → r ≢ p → (edited t p f).procs r ≡ t.procs r
unfolding edited
edited_ne t p f r ne = put_ne t.procs p _ r ne

pub edited-trace : (t : Table) (p : Ptr) (f : Proc → Proc) → (edited t p f).trace ≡ t.trace
unfolding edited
edited-trace t p f = refl

pub edited-IsOrdered :
    (queue : Slot → List Ptr) (t : Table) (p : Ptr) (f : Proc → Proc)
    → home (f (t.procs p)) ≡ home (t.procs p)
    → (f (t.procs p)).priority ≤ max_priority
    → IsOrdered queue t
    → IsOrdered queue (edited t p f)
unfolding edited
edited-IsOrdered queue t p f same small inv =
    Inv-put queue 0 t.procs t.lists p (f (t.procs p)) inv same small
