-- ===== src/Social/Friendships/Pairs.antt =====
-- services/api/repositories/social.py: two users have one friendship at most, and nobody one with themselves.
use mathlib.Core.Bool.{false≢true}
use cine_vault.Prelude.{
  ℕ, String, Bool, true, false, ◌≡◌, ◌≢◌, refl, sym, ◌∙◌, [], ◌∷◌, Option, none, some, arith,
  filter, string_eq, ◌==◌, Bool-cases, Option-cases, inl, inr, ◌&&◌,
}
use cine_vault.Prelude.Dict.{lookup, insert, delete, values, lookup-delete, found_in_insert}
use cine_vault.Social.Friendships.{
  Friendship, Friendships, FriendshipStatus, pending, accepted, blocked, NewRow, links, first,
  rows_of, is_preserved, check_actor, is_accepted, is_pending, create_friendship,
  update_friendship_status, delete_friendship, may_delete,
}

pub record IsPaired (fs : Friendships) : Type 0 where
  pub filed : (i : String) (f : Friendship) → lookup i fs ≡ some f → f.friendship_id ≡ i
  pub distinct :
      (i : String) (f : Friendship) → lookup i fs ≡ some f → f.requester_id ≢ f.addressee_id
  pub paired :
      (i j : String) (f g : Friendship)
      → lookup i fs ≡ some f
      → lookup j fs ≡ some g
      → links f.requester_id f.addressee_id g ≡ true
      → i ≡ j

pub init-IsPaired : IsPaired []
init-IsPaired = record {
  filed = λ i f h. absurd (ground arith);
  distinct = λ i f h. absurd (ground arith);
  paired = λ i j f g h k l. absurd (ground arith);
}

no_row :
    (p : Friendship → Bool) (j : String) (fs : Friendships) (g : Friendship)
    → first (filter p (values fs)) ≡ none
    → lookup j fs ≡ some g
    → p g ≡ false
no_row p j [] g h k = absurd (ground arith)
no_row p j ((i, f) ∷ fs) g h k = elim (Bool-cases (p f)) [
  | inl e ↦ absurd (ground arith)
  | inr e ↦ elim (Bool-cases (i == j)) [
    | inl same ↦ (let q : f ≡ g = ground arith in rw (sym q) e)
    | inr other ↦ no_row p j fs g (ground arith) (ground arith)
  ]
]

links_sym :
    (f g : Friendship)
    → links f.requester_id f.addressee_id g ≡ links g.requester_id g.addressee_id f
links_sym f g = ground (
  arith,
  string_eq.same_iff g.requester_id f.requester_id,
  string_eq.same_iff f.requester_id g.requester_id,
  string_eq.same_iff g.addressee_id f.addressee_id,
  string_eq.same_iff f.addressee_id g.addressee_id,
  string_eq.same_iff g.requester_id f.addressee_id,
  string_eq.same_iff f.addressee_id g.requester_id,
  string_eq.same_iff g.addressee_id f.requester_id,
  string_eq.same_iff f.requester_id g.addressee_id,
)

new_apart :
    (c : Friendship) (fs : Friendships) (f g : Friendship) (j : String)
    → c ≡ f
    → first (rows_of c.requester_id c.addressee_id fs) ≡ none
    → lookup j fs ≡ some g
    → links f.requester_id f.addressee_id g ≡ true
    → ⊥
new_apart c fs f g j q free old l =
    let none_links = no_row (links c.requester_id c.addressee_id) j fs g free old in
    false≢true (sym none_links ∙ rw q l)

kept :
    (id i : String) (f : Friendship) (fs : Friendships)
    → lookup i (delete id fs) ≡ some f
    → lookup i fs ≡ some f
kept id i f fs h = ground (arith, lookup-delete id i fs)

-- A row of a pair that has none, under an unused id.
pub insert-IsPaired :
    (id : String) (c : Friendship) (fs : Friendships)
    → lookup id fs ≡ none
    → c.friendship_id ≡ id
    → c.requester_id ≢ c.addressee_id
    → first (rows_of c.requester_id c.addressee_id fs) ≡ none
    → IsPaired fs
    → IsPaired (insert id c fs)
insert-IsPaired id c fs unused named differ free v = record {
  filed = λ i f h. elim (found_in_insert id i c f fs h) [
    | inl (p, q) ↦ rw (sym q, sym p) named
    | inr old ↦ v.filed i f old
  ];
  distinct = λ i f h. elim (found_in_insert id i c f fs h) [
    | inl (p, q) ↦ rw (sym q) differ
    | inr old ↦ v.distinct i f old
  ];
  paired = λ i j f g h k l. elim (found_in_insert id i c f fs h) [
    | inl (p, q) ↦ elim (found_in_insert id j c g fs k) [
      | inl (p', q') ↦ sym p ∙ p'
      | inr old ↦ absurd (new_apart c fs f g j q free old l)
    ]
    | inr old ↦ elim (found_in_insert id j c g fs k) [
      | inl (p', q') ↦ absurd (new_apart c fs g f i q' free old (sym (links_sym f g) ∙ l))
      | inr old' ↦ v.paired i j f g old old' l
    ]
  ];
}

abbrev SameSides : Friendship → Friendship → Type 0
SameSides f g = (f.requester_id ≡ g.requester_id) × (f.addressee_id ≡ g.addressee_id)

links-SameSides :
    (f f' g g' : Friendship)
    → SameSides f f'
    → SameSides g g'
    → links f.requester_id f.addressee_id g ≡ links f'.requester_id f'.addressee_id g'
links-SameSides f f' g g' (a, b) (c, d) = cc

replaced :
    (id i : String) (f f' g : Friendship) (fs : Friendships)
    → lookup id fs ≡ some f
    → SameSides f' f
    → lookup i (insert id f' fs) ≡ some g
    → (old : Friendship) × (lookup i fs ≡ some old) × SameSides g old
replaced id i f f' g fs known same h = elim (found_in_insert id i f' g fs h) [
  | inl (p, q) ↦ (f, rw (sym p) known, rw (sym q) same)
  | inr old ↦ (g, old, (refl, refl))
]

-- A row that names the same pair in the place of another.
pub replace-IsPaired :
    (id : String) (f f' : Friendship) (fs : Friendships)
    → lookup id fs ≡ some f
    → f'.friendship_id ≡ f.friendship_id
    → SameSides f' f
    → IsPaired fs
    → IsPaired (insert id f' fs)
replace-IsPaired id f f' fs known p1 same v = record {
  filed = λ i g h. elim (found_in_insert id i f' g fs h) [
    | inl (p, q) ↦ (let r = v.filed id f known in ground arith)
    | inr old ↦ v.filed i g old
  ];
  distinct = λ i g h. elim (found_in_insert id i f' g fs h) [
    | inl (p, q) ↦ (let r = v.distinct id f known in ground arith)
    | inr old ↦ v.distinct i g old
  ];
  paired = λ i j g k h h' l.
      let (g0, e, s) = replaced id i f f' g fs known same h in
      let (k0, e', s') = replaced id j f f' k fs known same h' in
      v.paired i j g0 k0 e e' (sym (links-SameSides g g0 k k0 s s') ∙ l);
}

pub delete-IsPaired : (id : String) (fs : Friendships) → IsPaired fs → IsPaired (delete id fs)
delete-IsPaired id fs v = record {
  filed = λ i f h. v.filed i f (kept id i f fs h);
  distinct = λ i f h. v.distinct i f (kept id i f fs h);
  paired = λ i j f g h k l. v.paired i j f g (kept id i f fs h) (kept id j g fs k) l;
}

preserved : (s : FriendshipStatus) → is_preserved s ≡ true
preserved pending = refl
preserved accepted = refl
preserved blocked = refl

pub create_friendship-IsPaired :
    (a b : String) (status : FriendshipStatus) (trust_score : ℕ) (new : NewRow) (fs : Friendships)
    → lookup new.id fs ≡ none
    → IsPaired fs
    → IsPaired (create_friendship a b status trust_score new fs).1
unfolding create_friendship
create_friendship-IsPaired a b status trust_score new fs unused v = elim (Bool-cases (a == b)) [
  | inl e ↦ rw (create_friendship, e) v
  | inr e ↦ elim (Option-cases (first (rows_of a b fs))) [
    | inl free ↦
        rw (create_friendship, e, free)
          (insert-IsPaired new.id _ fs unused refl (λ p. ground (arith, string_eq.same_iff a b))
            free v)
    | inr (f, found) ↦ rw (create_friendship, e, found, preserved f.status) v
  ]
]

pub update_friendship_status-IsPaired :
    (id : String) (status : FriendshipStatus) (trust_score : Option ℕ) (actor : Option String)
    (now : ℕ) (fs : Friendships)
    → IsPaired fs
    → IsPaired (update_friendship_status id status trust_score actor now fs).1
unfolding update_friendship_status
update_friendship_status-IsPaired id status trust_score actor now fs v =
    elim (Option-cases (lookup id fs)) [
      | inl e ↦ rw (update_friendship_status, e) v
      | inr (f, e) ↦ elim (Option-cases (check_actor actor status f)) [
        | inr (x, c) ↦ rw (update_friendship_status, e, c) v
        | inl c ↦ elim (Bool-cases (is_accepted f.status && is_pending status)) [
          | inl b ↦ rw (update_friendship_status, e, c, b) v
          | inr b ↦
              rw (update_friendship_status, e, c, b)
                (replace-IsPaired id f _ fs e refl (refl, refl) v)
        ]
      ]
    ]

pub delete_friendship-IsPaired :
    (id : String) (actor : Option String) (fs : Friendships)
    → IsPaired fs
    → IsPaired (delete_friendship id actor fs).1
unfolding delete_friendship
delete_friendship-IsPaired id actor fs v = elim (Option-cases (lookup id fs)) [
  | inl e ↦ rw (delete_friendship, e) v
  | inr (f, e) ↦ elim (Bool-cases (may_delete actor f)) [
    | inl m ↦ rw (delete_friendship, e, m) (delete-IsPaired id fs v)
    | inr m ↦ rw (delete_friendship, e, m) v
  ]
]
