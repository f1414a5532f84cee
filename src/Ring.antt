-- ===== src/Ring.antt =====
-- src/list.h and src/include/list.h: circular doubly linked lists through their entries.
-- A list is the address of its head entry; the memory holds the two links of every entry.
pub mod Chain
pub mod Insert
pub mod Unlink
pub mod Walk
mod Examples
use vaccel_google_test.Common.{
  ℕ, zero, suc, Bool, Option, none, some, List, [], ◌∷◌, ◌==◌, if◌then◌else◌, not,
}
use vaccel_google_test.Common.Memory.{Ptr, update}

pub record Links : Type 0 where
  pub next : Ptr → Ptr
  pub prev : Ptr → Ptr

-- `p->next = q`
abbrev pub set_next : Ptr → Ptr → Links → Links
set_next p q h = record h { next = update h.next p q }

-- `p->prev = q`
abbrev pub set_prev : Ptr → Ptr → Links → Links
set_prev p q h = record h { prev = update h.prev p q }

pub list_empty : Ptr → Links → Bool
list_empty list h = h.next list == list

pub entry_linked : Ptr → Links → Bool
entry_linked entry h = not (h.next entry == entry)

pub list_init_entry : Ptr → Links → Links
list_init_entry entry h = set_prev entry entry (set_next entry entry h)

pub list_init : Ptr → Links → Links
unfolding list_init_entry
list_init list h = list_init_entry list h

-- The four stores in the order of the source.
pub list_link_entry : (entry prev next : Ptr) → Links → Links
list_link_entry entry prev next h =
    let a = set_next entry next h in
    let b = set_prev next entry a in let c = set_prev entry prev b in set_next prev entry c

-- Each store reads the links that the stores above it left.
pub list_unlink_entry : Ptr → Links → Links
unfolding list_init_entry
list_unlink_entry entry h =
    let a = set_next (h.prev entry) (h.next entry) h in
    let b = set_prev (a.next entry) (a.prev entry) a in list_init_entry entry b

pub list_add_head : (list entry : Ptr) → Links → Links
unfolding list_link_entry
list_add_head list entry h = list_link_entry entry list (h.next list) h

pub list_add_tail : (list entry : Ptr) → Links → Links
unfolding list_link_entry
list_add_tail list entry h = list_link_entry entry (h.prev list) list h

pub list_remove_head : Ptr → Links → Option Ptr × Links
unfolding list_empty
list_remove_head list h =
    if list_empty list h then (none, h) else (some (h.next list), list_unlink_entry (h.next list) h)

pub list_remove_tail : Ptr → Links → Option Ptr × Links
unfolding list_empty
list_remove_tail list h =
    if list_empty list h then (none, h) else (some (h.prev list), list_unlink_entry (h.prev list) h)

cons_some : Ptr → Option (List Ptr) → Option (List Ptr)
cons_some p none = none
cons_some p (some ps) = some (p ∷ ps)

-- `for_each`: the entries in the order of the visit; `none` if the rounds do not suffice.
visit : ℕ → (list iter : Ptr) → Links → Option (List Ptr)
unfolding cons_some
visit zero list iter h = none
visit (suc k) list iter h = elim (iter == list) [
  | Bool.true ↦ some []
  | Bool.false ↦ cons_some iter (visit k list (h.next iter) h)
]

pub for_each : ℕ → Ptr → Links → Option (List Ptr)
unfolding visit
for_each fuel list h = visit fuel list (h.next list) h

-- `for_each_container_safe` with a body that unlinks the entry it is given: `tmp` is read before
-- the body runs, and the loop goes on from there.
drain : ℕ → (list iter tmp : Ptr) → Links → Option Links
unfolding list_unlink_entry
drain zero list iter tmp h = none
drain (suc k) list iter tmp h = elim (iter == list) [
  | Bool.true ↦ some h
  | Bool.false ↦ let h' = list_unlink_entry iter h in drain k list tmp (h'.next tmp) h'
]

pub drain_all : ℕ → Ptr → Links → Option Links
unfolding drain
drain_all fuel list h = drain fuel list (h.next list) (h.next (h.next list)) h
