-- ===== src/Proc/Sched/Every.antt =====
-- promoteAll() as a whole.
use fp_sisop20_b.Prelude.{◌≡◌, refl, ap₂, subst, fun_ext, ◌∙◌, List}
use fp_sisop20_b.Run.{ok}
use fp_sisop20_b.StateList.{Ptr, Slot, ready}
use fp_sisop20_b.Proc.{Proc, Table}
use fp_sisop20_b.Proc.Invariant.{InTable, IsOrdered}
use fp_sisop20_b.Proc.Sched.{promote_all}
use fp_sisop20_b.Proc.Sched.Promote.{raised}
use fp_sisop20_b.Proc.Sched.PromoteAll.{
  promoted_queue, ready_step, place_step, promote_all_run, queue_after, promoted, four, four_raised,
}

raised_chain :
    (p p1 p2 p3 p4 : Ptr → Proc) (a b c d : List Ptr) {b' c' d' : List Ptr}
    → ((q : Ptr) → p1 q ≡ raised p a q)
    → ((q : Ptr) → p2 q ≡ raised p1 b' q)
    → ((q : Ptr) → p3 q ≡ raised p2 c' q)
    → ((q : Ptr) → p4 q ≡ raised p3 d' q)
    → b' ≡ b
    → c' ≡ c
    → d' ≡ d
    → (q : Ptr) → p4 q ≡ four p a b c d q
raised_chain p p1 p2 p3 p4 a b c d i1 i2 i3 i4 eb ec ed q =
    i4 q
    ∙ ap₂ (λ f ys. raised f ys q)
        (fun_ext i3
          ∙ ap₂ (λ f ys. raised f ys) (fun_ext i2 ∙ ap₂ (λ f ys. raised f ys) (fun_ext i1) eb) ec)
        ed

-- `promoteAll`, called on a table in order, ends and leaves the table in order: the processes of
-- priority 1 stand behind those of priority 0, the processes of priority 2 make up ready list 1,
-- each in the order in which they stood, ready list 2 is empty and no other list changes. Each
-- sleeping, runnable or running process goes up by one priority, once, unless it has the highest
-- one already. No other process changes, and nothing is printed.
pub promote_all_lem :
    (queue : Slot → List Ptr) (t : Table)
    → IsOrdered queue t
    → (t' : Table) × (promote_all t ≡ ok tt t')
      × IsOrdered (promoted_queue queue) t'
      × ((q : Ptr) → InTable q → t'.procs q ≡ promoted (t.procs q))
      × (t'.trace ≡ t.trace)
promote_all_lem queue t inv =
    let (q1, t1, r1, w1) = ready_step queue t 0 inv in
    let (q2, t2, r2, w2) = ready_step q1 t1 1 w1.ordered in
    let (procs3, r3, is3, inv3) = place_step q2 t2 Slot.sleep w2.ordered (λ e. e) in
    let t3 = record t2 { procs = procs3 } in
    let (procs4, r4, is4, inv4) = place_step q2 t3 Slot.running inv3 (λ e. e) in
    let t4 = record t3 { procs = procs4 } in
    (
      t4,
      promote_all_run t t1 t2 t3 t4 r1 r2 r3 r4,
      subst (λ f. IsOrdered f t4) (fun_ext (queue_after queue q1 q2 t t1 t2 w1 w2)) inv4,
      (λ q h.
          raised_chain t.procs t1.procs t2.procs procs3 procs4 (queue (ready 1)) (queue (ready 2))
            (queue Slot.sleep) (queue Slot.running) w1.procs w2.procs is3 is4
            (w1.elsewhere (ready 2) (λ e. cc) (λ e. cc))
            (queue_after queue q1 q2 t t1 t2 w1 w2 Slot.sleep)
            (queue_after queue q1 q2 t t1 t2 w1 w2 Slot.running) q
          ∙ four_raised queue t inv q h (t.procs q).state (t.procs q).priority refl refl
              (inv.bounded q)),
      w2.quiet ∙ w1.quiet,
    )
