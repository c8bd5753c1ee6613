-- ===== src/StateList.antt =====
-- The lists of processes of proc.c, one for each state, linked through `next`. Process p stands at
-- address p of the table, and 0 is the null pointer. The `next` fields of all processes are one
-- function, and the heads of `struct StateLists` another.
pub mod Chain
pub mod Walk
pub mod Single
pub mod Capacity
pub mod Keep
pub mod Range
use fp_sisop20_b.Prelude.{
  ℕ, zero, suc, ◌+◌, ◌≤◌, Bool, true, ◌==◌, leb, if◌then◌else◌, update, ite, ℕ_discrete,
}
use fp_sisop20_b.Run.{Run, ok, faults, exhausted, Cmd, pure, panic, ◌>>=◌, ◌>>◌, get, modify}

abbrev pub Ptr : Type 0
Ptr = ℕ

-- MAX of param.h: the ready lists go from 0 to 2.
abbrev pub max_priority : ℕ
max_priority = 2

-- NPROC of param.h.
abbrev pub nproc : ℕ
nproc = 64

-- The heads that a `struct proc **sList` can point to.
pub data Slot : Type 0 where
  ready : ℕ → Slot
  free sleep zombie running embryo : Slot

pub Slot-discrete : Discrete Slot
Slot-discrete = hlevel ℕ_discrete

pub record Lists : Type 0 where
  pub next : Ptr → Ptr
  pub head : Slot → Ptr

-- What an `int` function returns: 0, or -1.
pub data Status : Type 0 where
  success failure : Status

abbrev pub assign {ℓ} : {A : Type ℓ} → (Slot → A) → Slot → A → Slot → A
assign f k v j = ite (Slot-discrete j k) v (f j)

-- Only `ready` is an array, so only there an index can be out of range.
abbrev pub in_range : Slot → Bool
in_range (ready i) = leb i max_priority
in_range _ = true

-- `*sList`
unfoldable pub load_head : Slot → Cmd Lists Ptr
load_head k l = if in_range k then ok (l.head k) l else faults

-- `*sList = p`
unfoldable pub store_head : Slot → Ptr → Cmd Lists (Unit {0})
store_head k p l = if in_range k then ok tt (record l { head = assign l.head k p }) else faults

-- `p->next`
abbrev pub load_next : Ptr → Cmd Lists Ptr
load_next p = get (λ l. l.next p)

-- `p->next = q`
abbrev pub store_next : Ptr → Ptr → Cmd Lists (Unit {0})
store_next p q = modify (λ l. record l { next = update l.next p q })

unfoldable pub add_to_state_list_head : Slot → Ptr → Cmd Lists Status
unfolding load_head store_head
add_to_state_list_head k p = if p == 0 then panic "Invalid process." else do
  h ← load_head k
  if h == 0 then (do store_head k p; store_next p 0; pure success) else (do
    store_next p (← load_head k)
    store_head k p
    h' ← load_head k
    if p == h' then pure success else pure failure)

-- The walk to the last node: `while (current->next) current = current->next;`
unfoldable pub last_loop : ℕ → Ptr → Cmd Lists Ptr
last_loop zero current = λ _. exhausted
last_loop (suc n) current = do q ← load_next current; if q == 0 then pure current else last_loop n q

unfoldable pub add_to_state_list_end : Slot → Ptr → Cmd Lists Status
unfolding load_head store_head
add_to_state_list_end k p = if p == 0 then panic "Invalid process." else do
  h ← load_head k
  if h == 0
      then (do store_head k p; store_next p 0; pure success)
      else (do current ← last_loop nproc h; store_next current p; store_next p 0; pure success)

-- The walk with a trailing pointer of removeFromStateList.
unfoldable pub remove_loop : ℕ → (p prev current : Ptr) → Cmd Lists Status
remove_loop zero p prev current = λ _. exhausted
remove_loop (suc n) p prev current =
    if current == 0
    then pure failure
    else if current == p
    then (do store_next prev (← load_next current); store_next p 0; pure success)
    else (do after ← load_next current; remove_loop n p current after)

-- The case `p == *sList` of removeFromStateList.
remove_first : Slot → Ptr → Cmd Lists Status
unfolding load_head store_head
remove_first k p = do
  after ← load_next p
  if after == 0
      then (do store_head k 0; store_next p 0; pure success)
      else (do store_next p 0; store_head k after; pure success)

unfoldable pub remove_from_state_list : Slot → Ptr → Cmd Lists Status
unfolding load_head remove_first
remove_from_state_list k p = if p == 0 then panic "Invalid process structures." else do
  h ← load_head k
  if h == 0
      then pure failure
      else if p == h
      then remove_first k p
      else (do current ← load_next h; remove_loop nproc p h current)

unfoldable pub remove_head : Slot → Cmd Lists Ptr
unfolding load_head store_head
remove_head k = do
  p ← load_head k
  if p == 0 then pure 0 else (do temp ← load_next p; store_next p 0; store_head k temp; pure p)
