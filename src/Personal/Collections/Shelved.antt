-- ===== src/Personal/Collections/Shelved.antt =====
-- services/api/repositories/personal.py: what holds of the collections after any calls.
use cine_vault.Prelude.{
  ◌+◌, ◌≤◌, String, Bool, true, false, not, ◌≡◌, refl, List, [], ◌∷◌, ◌++◌, Option, some, arith,
  filter, length, string_eq, ◌==◌, if◌then◌else◌, Bool-cases, Option-cases, inl, inr, All, All-imp,
  All-append,
}
use cine_vault.Personal.Collections.{
  UserList, ListItem, Shelf, Drawn, own_list, is_in, has_item, new_item, add_item,
  create_collection, delete_collection, add_collection_item, remove_collection_item,
}

abbrev pub has_list : String → List UserList → Bool
has_list list [] = false
has_list list (l ∷ ls) = if l.list_id == list then true else has_list list ls

abbrev pub InList : List UserList → ListItem → Type 0
InList lists i = has_list i.list_id lists ≡ true

-- No list has a title twice, and every item is in a list that is there.
pub record IsShelved (s : Shelf) : Type 0 where
  pub once : (list title : String) → length (filter (is_in list title) s.items) ≤ 1
  pub known : All (InList s.lists) s.items

length-filter-append :
    (list title : String) (items : List ListItem) (i : ListItem)
    → length (filter (is_in list title) (items ++ i ∷ []))
      ≡ length (filter (is_in list title) items) + (if is_in list title i then 1 else 0)
length-filter-append list title [] i = ground arith
length-filter-append list title (j ∷ items) i =
    ground (arith, length-filter-append list title items i)

length-filter-absent :
    (list title : String) (items : List ListItem)
    → has_item list title items ≡ false
    → length (filter (is_in list title) items) ≡ 0
length-filter-absent list title [] h = refl
length-filter-absent list title (i ∷ items) h =
    ground (arith, length-filter-absent list title items)

length-filter-filter :
    (p q : ListItem → Bool) (items : List ListItem)
    → length (filter p (filter q items)) ≤ length (filter p items)
length-filter-filter p q [] = omega arith
length-filter-filter p q (i ∷ items) = ground (arith, length-filter-filter p q items)

All-filter :
    (P Q : ListItem → Type 0) (q : ListItem → Bool)
    → ((i : ListItem) → q i ≡ true → P i → Q i)
    → (items : List ListItem) → All P items
    → All Q (filter q items)
All-filter P Q q f [] h = tt
All-filter P Q q f (i ∷ items) h = elim (Bool-cases (q i)) [
  | inl e ↦ rw e (f i e h.0, All-filter P Q q f items h.1)
  | inr e ↦ rw e (All-filter P Q q f items h.1)
]

has_list-append :
    (list : String) (lists : List UserList) (l : UserList)
    → has_list list lists ≡ true
    → has_list list (lists ++ l ∷ []) ≡ true
has_list-append list [] l h = absurd (ground arith)
has_list-append list (m ∷ lists) l h = ground (arith, has_list-append list lists l)

has_list-filter :
    (list gone : String) (lists : List UserList)
    → not (list == gone) ≡ true
    → has_list list lists ≡ true
    → has_list list (filter (λ l. not (l.list_id == gone)) lists) ≡ true
has_list-filter list gone [] n h = h
has_list-filter list gone (l ∷ lists) n h = ground (
  arith,
  has_list-filter list gone lists n,
  string_eq.same_iff l.list_id list,
  string_eq.same_iff l.list_id gone,
  string_eq.same_iff list gone,
)

own_list-has_list :
    (user list : String) (lists : List UserList) (l : UserList)
    → own_list user list lists ≡ some l
    → has_list list lists ≡ true
own_list-has_list user list [] l h = absurd (ground arith)
own_list-has_list user list (m ∷ lists) l h = ground (arith, own_list-has_list user list lists l)

add_item-once :
    (list title : String) (notes : Option String) (f : Drawn) (items : List ListItem)
    → ((l t : String) → length (filter (is_in l t) items) ≤ 1)
    → (l t : String) → length (filter (is_in l t) (add_item list title notes f items)) ≤ 1
add_item-once list title notes f items once l t =
    let i = new_item list title notes f items in
    let before = once l t in
    elim (Bool-cases (has_item list title items)) [
      | inl e ↦ rw e before
      | inr e ↦ rw e (elim (Bool-cases (is_in l t i)) [
        | inr other ↦ (let size = length-filter-append l t items i in ground (arith, size, other))
        | inl same ↦
            (let size = length-filter-append l t items i in
              let same_list : list ≡ l = ground (arith, string_eq.same_iff list l) in
              let same_title : title ≡ t = ground (arith, string_eq.same_iff title t) in
              let none_yet = length-filter-absent list title items e in
              let none_here : length (filter (is_in l t) items) ≡ 0 =
                rw (← same_list, ← same_title) none_yet in
              ground (arith, size, none_here, same))
      ])
    ]

add_item-known :
    (list title : String) (notes : Option String) (f : Drawn) (lists : List UserList)
    (items : List ListItem)
    → has_list list lists ≡ true
    → All (InList lists) items
    → All (InList lists) (add_item list title notes f items)
add_item-known list title notes f lists items h known =
    elim (Bool-cases (has_item list title items)) [
      | inl e ↦ rw e known
      | inr e ↦
          rw e
            (All-append (InList lists) items (new_item list title notes f items ∷ []) known (h, tt))
    ]

-- Calls that write collections, of any users.
pub data Call : Type 0 where
  create : String → String → Option String → Bool → Drawn → Call
  remove_list : String → String → Call
  add : String → String → String → Option String → Drawn → Call
  remove : String → String → String → Call

module _ (title_name : String → Option String) where
  abbrev pub apply : Call → Shelf → Shelf
  apply (create user name description is_private f) s =
      (create_collection user name description is_private f s).1
  apply (remove_list user list) s = (delete_collection user list s).1
  apply (add user list title notes f) s =
      (add_collection_item title_name user list title notes f s).1
  apply (remove user list title) s = (remove_collection_item user list title s).1

  abbrev pub run : List Call → Shelf → Shelf
  run [] s = s
  run (c ∷ calls) s = run calls (apply c s)

  apply-IsShelved : (c : Call) (s : Shelf) → IsShelved s → IsShelved (apply c s)
  unfolding create_collection delete_collection add_collection_item remove_collection_item
  apply-IsShelved (create user name description is_private f) s v = record {
    once = v.once;
    known =
        All-imp (InList s.lists)
          (InList (apply (create user name description is_private f) s).lists)
          (λ i h. has_list-append i.list_id s.lists _ h) s.items v.known;
  }
  apply-IsShelved (remove_list user list) s v = elim (Option-cases (own_list user list s.lists)) [
    | inl e ↦ rw (apply, delete_collection, e) v
    | inr (l, e) ↦
        rw (apply, delete_collection, e)
          (record {
            once = λ l' t.
                (let le =
                    length-filter-filter (is_in l' t) (λ i. not (i.list_id == list)) s.items in
                  let before = v.once l' t in omega (arith, le, before));
            known =
                All-filter (InList s.lists)
                  (InList (filter (λ l'. not (l'.list_id == list)) s.lists))
                  (λ i. not (i.list_id == list))
                  (λ i q h. has_list-filter i.list_id list s.lists q h) s.items v.known;
          })
  ]
  apply-IsShelved (add user list title notes f) s v =
      elim (Option-cases (own_list user list s.lists)) [
        | inl e ↦ rw (apply, add_collection_item, e) v
        | inr (l, e) ↦
            rw (apply, add_collection_item, e)
              (record {
                once = add_item-once list title notes f s.items v.once;
                known =
                    add_item-known list title notes f s.lists s.items
                      (own_list-has_list user list s.lists l e) v.known;
              })
      ]
  apply-IsShelved (remove user list title) s v = elim (Option-cases (own_list user list s.lists)) [
    | inl e ↦ rw (apply, remove_collection_item, e) v
    | inr (l, e) ↦ elim (Bool-cases (has_item list title s.items)) [
      | inr absent ↦ rw (apply, remove_collection_item, e, absent) v
      | inl present ↦
          rw (apply, remove_collection_item, e, present)
            (record {
              once = λ l' t.
                  (let le =
                      length-filter-filter (is_in l' t) (λ i. not (is_in list title i)) s.items in
                    let before = v.once l' t in omega (arith, le, before));
              known =
                  All-filter (InList s.lists) (InList s.lists) (λ i. not (is_in list title i))
                    (λ i q h. h) s.items v.known;
            })
    ]
  ]

  -- After any calls of any users on a well-formed shelf, no collection has a title twice, and every item is in
  -- a collection that is there: a deleted collection takes its items with it.
  pub run-IsShelved : (calls : List Call) (s : Shelf) → IsShelved s → IsShelved (run calls s)
  run-IsShelved [] s v = v
  run-IsShelved (c ∷ calls) s v = run-IsShelved calls (apply c s) (apply-IsShelved c s v)
