-- ===== src/Router/Search.antt =====
-- The loop over the table in `route_one_datagram` (libsponge/router.cc).
use cs.Prelude.{
  ℕ, ◌<◌, ◌≤◌, ◌≡◌, refl, sym, ap, ◌∙◌, subst, Bool, true, false, ◌||◌, inl, inr, ◌⊎◌, Bool-cases,
  List, [], ◌∷◌, ltb, arith, if◌then◌else◌,
}
use mathlib.Core.List.{Memᴰ}
use native.Mathlib.Decide.{dec_lt}
use cs.Router.{RouteEntry, Choice, applies, longer, choose, initial}

-- Each entry of a list is one of these.
abbrev pub All : (RouteEntry → Type 0) → List RouteEntry → Type 0
All P [] = Unit {0}
All P (r ∷ rs) = P r × All P rs

-- An entry does not apply, or its prefix is not longer.
abbrev pub AtMost : ℕ → ℕ → RouteEntry → Type 0
AtMost dst n r = (applies dst r ≡ false) ⊎ (r.prefix_length ≤ n)

abbrev any_applies : ℕ → List RouteEntry → Bool
any_applies dst [] = false
any_applies dst (r ∷ rs) = applies dst r || any_applies dst rs

All-AtMost :
    (dst m n : ℕ) (rs : List RouteEntry) → m ≤ n → All (AtMost dst m) rs → All (AtMost dst n) rs
All-AtMost dst m n [] h all = tt
All-AtMost dst m n (r ∷ rs) h (inl idle, all) = (inl idle, All-AtMost dst m n rs h all)
All-AtMost dst m n (r ∷ rs) h (inr le, all) = (inr (omega arith), All-AtMost dst m n rs h all)

-- An entry of the list that applies, at least as long as each other one.
pub record Longest (dst : ℕ) (rs : List RouteEntry) (r : RouteEntry) : Type 0 where
  pub listed : Memᴰ r rs
  pub applies : applies dst r ≡ true
  pub longest : All (AtMost dst r.prefix_length) rs

-- What the loop makes of a choice: it keeps it, where nothing longer applies, or it ends with the
-- longest entry.
Chosen : ℕ → List RouteEntry → Choice → Choice → Type 0
Chosen dst rs c c' =
    (c'.best_route ≡ c.best_route)
      × (c'.max_prefix_mask ≡ c.max_prefix_mask)
      × All (AtMost dst c.max_prefix_mask) rs
    ⊎ Longest dst rs c'.best_route
      × (c'.best_route.prefix_length ≡ c'.max_prefix_mask)
      × (c.max_prefix_mask < c'.max_prefix_mask)

Longest-cons :
    (dst : ℕ) (r e : RouteEntry) (rs : List RouteEntry)
    → AtMost dst e.prefix_length r
    → Longest dst rs e
    → Longest dst (r ∷ rs) e
Longest-cons dst r e rs h l = record {
  listed = Memᴰ.tail l.listed;
  applies = l.applies;
  longest = (h, l.longest);
}

AtMost-le : (dst m n : ℕ) (r : RouteEntry) → m ≤ n → AtMost dst m r → AtMost dst n r
AtMost-le dst m n r h (inl idle) = inl idle
AtMost-le dst m n r h (inr le) = inr (omega arith)

-- An entry that the loop passes over.
Chosen-cons :
    (dst : ℕ) (r : RouteEntry) (rs : List RouteEntry) (c c' : Choice)
    → AtMost dst c.max_prefix_mask r
    → Chosen dst rs c c'
    → Chosen dst (r ∷ rs) c c'
unfolding Chosen
Chosen-cons dst r rs c c' h (inl (b, m, all)) = inl (b, m, (h, all))
Chosen-cons dst r rs c c' h (inr (l, e, more)) = inr (
  Longest-cons dst r c'.best_route rs
      (AtMost-le dst c.max_prefix_mask c'.best_route.prefix_length r (omega arith) h) l,
  e,
  more,
)

-- An entry that only sets the flag.
Chosen-kept :
    (dst : ℕ) (r : RouteEntry) (rs : List RouteEntry) (c c' : Choice)
    → r.prefix_length ≤ c.max_prefix_mask
    → Chosen dst rs (record c { if_find_route = true }) c'
    → Chosen dst (r ∷ rs) c c'
unfolding Chosen
Chosen-kept dst r rs c c' h ch = Chosen-cons dst r rs c c' (inr h) ch

-- An entry that the loop takes.
Chosen-taken :
    (dst : ℕ) (r : RouteEntry) (rs : List RouteEntry) (c c' : Choice)
    → applies dst r ≡ true
    → c.max_prefix_mask < r.prefix_length
    → Chosen dst rs
        (record { best_route = r; max_prefix_mask = r.prefix_length; if_find_route = true })
        c'
    → Chosen dst (r ∷ rs) c c'
unfolding Chosen
Chosen-taken dst r rs c c' hit h (inl (b, m, all)) =
    let len : r.prefix_length ≡ c'.best_route.prefix_length = sym (ap (λ e. e.prefix_length) b) in
    inr (
      record {
        listed = Memᴰ.head b;
        applies = ap (applies dst) b ∙ hit;
        longest = (inr (omega arith), subst (λ n. All (AtMost dst n) rs) len all);
      },
      omega arith,
      omega arith,
    )
Chosen-taken dst r rs c c' hit h (inr (l, e, more)) =
    inr (Longest-cons dst r c'.best_route rs (inr (omega arith)) l, e, omega arith)

-- One round of the loop.
abbrev next : ℕ → RouteEntry → Choice → Choice
next dst r c = if applies dst r then longer r c else c

Chosen-next :
    (dst : ℕ) (r : RouteEntry) (rs : List RouteEntry) (c c1 : Choice)
    → next dst r c ≡ c1
    → Chosen dst (r ∷ rs) c (choose dst rs c1)
    → Chosen dst (r ∷ rs) c (choose dst (r ∷ rs) c)
unfolding choose
Chosen-next dst r rs c c1 e h = subst (λ c2. Chosen dst (r ∷ rs) c (choose dst rs c2)) (sym e) h

choose_nil : (dst : ℕ) (c : Choice) → Chosen dst [] c (choose dst [] c)
unfolding Chosen choose
choose_nil dst c = inl (refl, refl, tt)

choose_lem : (dst : ℕ) (rs : List RouteEntry) (c : Choice) → Chosen dst rs c (choose dst rs c)
choose_lem dst [] c = choose_nil dst c
choose_lem dst (r ∷ rs) c = elim (Bool-cases (applies dst r)) [
  | inr idle ↦
      Chosen-next dst r rs c c (rw idle refl)
        (Chosen-cons dst r rs c _ (inl idle) (choose_lem dst rs c))
  | inl hit ↦ elim (Bool-cases (ltb c.max_prefix_mask r.prefix_length)) [
    | inr short ↦
        Chosen-next dst r rs c (record c { if_find_route = true }) (rw (hit, short) refl)
          (Chosen-kept dst r rs c _ (ground arith)
            (choose_lem dst rs (record c { if_find_route = true })))
    | inl long ↦
        Chosen-next dst r rs c _ (rw (hit, long) refl)
          (Chosen-taken dst r rs c _ hit (ground arith) (choose_lem dst rs _))
  ]
]

-- The flag tells whether an entry applies.
found_lem :
    (dst : ℕ) (rs : List RouteEntry) (c : Choice)
    → (choose dst rs c).if_find_route ≡ (c.if_find_route || any_applies dst rs)
unfolding choose
found_lem dst [] c = ground arith
found_lem dst (r ∷ rs) c =
    ground (arith, found_lem dst rs (if applies dst r then longer r c else c))

none_lem :
    (dst : ℕ) (rs : List RouteEntry)
    → any_applies dst rs ≡ false
    → All (λ r. applies dst r ≡ false) rs
none_lem dst [] e = tt
none_lem dst (r ∷ rs) e = (ground arith, none_lem dst rs (ground arith))

any-listed :
    (dst : ℕ) (e : RouteEntry) (rs : List RouteEntry)
    → Memᴰ e rs
    → applies dst e ≡ true
    → any_applies dst rs ≡ true
any-listed dst e [] m h = elim m [ ]
any-listed dst e (r ∷ rs) (Memᴰ.head same) h =
    let hit : applies dst r ≡ true = ap (applies dst) (sym same) ∙ h in ground arith
any-listed dst e (r ∷ rs) (Memᴰ.tail m) h = ground (arith, any-listed dst e rs m h)

All-listed :
    (P : RouteEntry → Type 0) (e : RouteEntry) (rs : List RouteEntry) → Memᴰ e rs → All P rs → P e
All-listed P e [] m all = elim m [ ]
All-listed P e (r ∷ rs) (Memᴰ.head same) (p, all) = subst P (sym same) p
All-listed P e (r ∷ rs) (Memᴰ.tail m) (p, all) = All-listed P e rs m all

-- Entries that are no default routes, and at most as long as one.
positive_none :
    (dst : ℕ) (rs : List RouteEntry)
    → All (AtMost dst 0) rs
    → All (λ r. 0 < r.prefix_length) rs
    → any_applies dst rs ≡ false
positive_none dst [] all pos = refl
positive_none dst (r ∷ rs) (inl idle, all) (p, pos) = ground (arith, positive_none dst rs all pos)
positive_none dst (r ∷ rs) (inr le, all) (p, pos) = absurd (omega arith)

default_applies : (dst : ℕ) (r : RouteEntry) → r.prefix_length ≡ 0 → applies dst r ≡ true
unfolding applies
default_applies dst r e = ground arith

-- The loop over a table, in which an entry with an empty prefix is the first one if there is one:
-- either no entry applies, and no route is found; or a route is found, and it is an entry that
-- applies, with a prefix at least as long as that of each other entry that does.
pub choose-Longest :
    (dst : ℕ) (first : RouteEntry) (rs : List RouteEntry)
    → All (λ r. 0 < r.prefix_length) rs
    → let c = choose dst (first ∷ rs) (initial first) in
      (c.if_find_route ≡ false) × All (λ r. applies dst r ≡ false) (first ∷ rs)
      ⊎ (c.if_find_route ≡ true) × Longest dst (first ∷ rs) c.best_route
unfolding Chosen
choose-Longest dst first rs pos =
    let table = first ∷ rs in
    let c = choose dst table (initial first) in
    let found : c.if_find_route ≡ any_applies dst table = found_lem dst table (initial first) in
    elim (choose_lem dst table (initial first)) [
      | inr (l, _, _) ↦ inr (found ∙ any-listed dst c.best_route table l.listed l.applies, l)
      | inl (b, _, all) ↦ elim (Bool-cases (any_applies dst table)) [
        | inr idle ↦ inl (found ∙ idle, none_lem dst table idle)
        | inl some_hit ↦ elim (dec_lt 0 first.prefix_length) [
          | yes long ↦ absurd (ground (arith, positive_none dst table all (long, pos)))
          | no short ↦ inr (
            found ∙ some_hit,
            record {
              listed = Memᴰ.head b;
              applies = ap (applies dst) b ∙ default_applies dst first (omega arith);
              longest = All-AtMost dst 0 c.best_route.prefix_length table (omega arith) all;
            },
          )
        ]
      ]
    ]

-- Where an entry applies, but none that has a prefix, the loop comes to the table's first entry,
-- whether or not that one applies.
pub choose-default :
    (dst : ℕ) (first r : RouteEntry) (rs : List RouteEntry)
    → All (AtMost dst 0) (first ∷ rs)
    → Memᴰ r (first ∷ rs)
    → applies dst r ≡ true
    → let c = choose dst (first ∷ rs) (initial first) in
      (c.if_find_route ≡ true) × (c.best_route ≡ first)
unfolding Chosen
choose-default dst first r rs all m hit =
    let table = first ∷ rs in
    let c = choose dst table (initial first) in
    (
      found_lem dst table (initial first) ∙ any-listed dst r table m hit,
      elim (choose_lem dst table (initial first)) [
        | inl (b, _, _) ↦ b
        | inr (l, e, more) ↦ elim (All-listed (AtMost dst 0) c.best_route table l.listed all) [
          | inl idle ↦ absurd (ground (arith, l.applies))
          | inr le ↦ absurd (omega arith)
        ]
      ],
    )
