-- ===== src/Router/Lookup.antt =====
-- The routing table: its order, and the search for the longest matching prefix.
use computer_networking.Prelude.{
  ℕ, zero, suc, ◌-◌, ◌*◌, ◌/◌, ◌%◌, ◌^◌, ◌≤◌, ◌<◌, Option, none, some, [], ◌∷◌, ◌==◌, ◌≡◌, ◌≢◌,
  refl, sym, ap, ◌∙◌, subst, ◌⊎◌, inl, inr, Bool-cases, Option-cases, arith, ==→eq, ==_self, ne→==,
  u8, u32, sub_w,
}
use mathlib.Core.Option.{none-ne-some}
use native.Mathlib.Nat.{div-add-mod, mul-div_left}
use computer_networking.Maps.{Map}
use computer_networking.Router.{
  Route, RoutingTable, routes_at, default_prefix, dst_route_prefix, find_route,
}

-- The lengths decrease along the table, and are below `bound`; a prefix has no bit set beyond its length.
abbrev pub IsPrefix : ℕ → ℕ → Type 0
IsPrefix len prefix = (prefix < u32) × (prefix % 2 ^ (32 - len) ≡ 0)

abbrev pub IsTable : ℕ → RoutingTable → Type 0
IsTable bound [] = Unit {0}
IsTable bound ((len, routes) ∷ rest) =
    (len < bound)
    × ((prefix : ℕ) (route : Route) → routes prefix ≡ some route → IsPrefix len prefix)
    × IsTable len rest

-- A route of the table whose prefix agrees with an address in its first bits.
pub record Matches (table : RoutingTable) (dst len prefix : ℕ) (route : Route) : Type 0 where
  pub in_table : routes_at len table prefix ≡ some route
  pub short : len ≤ 32
  pub agrees : dst / 2 ^ (32 - len) ≡ prefix / 2 ^ (32 - len)

-- The key that is looked up is the one prefix of its length that agrees with the address.
pow_positive : (n : ℕ) → 0 < 2 ^ n
pow_positive zero = omega arith
pow_positive (suc n) = omega (arith, pow_positive n)

masked : (prefix dst b : ℕ) → dst / b ≡ prefix / b → prefix % b ≡ 0 → dst / b * b ≡ prefix
masked prefix dst b e z = rw e (omega (arith, div-add-mod prefix b, z))

shift : (len : ℕ) → len ≤ 32 → sub_w u8 32 len ≡ 32 - len
shift len h = omega arith

default-zero :
    (dst : ℕ) (routes : Map Route)
    → ((prefix : ℕ) (route : Route) → routes prefix ≡ some route → IsPrefix 0 prefix)
    → (o : Option Route) → routes dst ≡ o
    → default_prefix dst o ≡ 0
default-zero dst routes c none e = refl
default-zero dst routes c (some r) e = let (b, z) = c dst r e in omega arith

dst_route_prefix-zero :
    (dst : ℕ) (routes : Map Route)
    → ((prefix : ℕ) (route : Route) → routes prefix ≡ some route → IsPrefix 0 prefix)
    → dst_route_prefix 0 routes dst ≡ 0
unfolding dst_route_prefix
dst_route_prefix-zero dst routes c = default-zero dst routes c (routes dst) refl

dst_route_prefix-masked :
    (len dst : ℕ) (routes : Map Route)
    → len ≤ 32
    → len ≢ 0
    → dst_route_prefix len routes dst ≡ dst / 2 ^ (32 - len) * 2 ^ (32 - len)
unfolding dst_route_prefix
dst_route_prefix-masked len dst routes h n = rw (ne→== len 0 n, shift len h)

module _ (dst : ℕ) (small : dst < u32) where
  key-agrees :
      (len prefix : ℕ) (routes : Map Route) (route : Route)
      → len ≤ 32
      → ((prefix : ℕ) (route : Route) → routes prefix ≡ some route → IsPrefix len prefix)
      → routes prefix ≡ some route
      → dst / 2 ^ (32 - len) ≡ prefix / 2 ^ (32 - len)
      → dst_route_prefix len routes dst ≡ prefix
  key-agrees zero prefix routes route h c e a =
      let (b, z) = c prefix route e in dst_route_prefix-zero dst routes c ∙ omega arith
  key-agrees (suc n) prefix routes route h c e a =
      dst_route_prefix-masked (suc n) dst routes h (λ z. omega arith)
      ∙ masked prefix dst (2 ^ (32 - suc n)) a ((c prefix route e).1)

  agrees-key :
      (len : ℕ) (routes : Map Route)
      → len ≤ 32
      → ((prefix : ℕ) (route : Route) → routes prefix ≡ some route → IsPrefix len prefix)
      → dst / 2 ^ (32 - len) ≡ dst_route_prefix len routes dst / 2 ^ (32 - len)
  agrees-key zero routes h c = rw (dst_route_prefix-zero dst routes c) (omega arith)
  agrees-key (suc n) routes h c =
      rw (dst_route_prefix-masked (suc n) dst routes h (λ z. omega arith))
        (sym (mul-div_left (dst / 2 ^ (32 - suc n)) (pow_positive (32 - suc n))))

-- The lengths of the routes in a table are below its bound.
routes_at-bound :
    (bound len prefix : ℕ) (table : RoutingTable) (route : Route)
    → IsTable bound table
    → routes_at len table prefix ≡ some route
    → len < bound
unfolding routes_at
routes_at-bound bound len prefix [] route t e = absurd (none-ne-some route e)
routes_at-bound bound len prefix ((l, routes) ∷ rest) route (b, c, t) e =
    elim (Bool-cases (l == len)) [
      | inl q ↦ omega (arith, ==→eq l len q)
      | inr q ↦ let deeper = routes_at-bound l len prefix rest route t (rw q at e) in omega arith
    ]

-- The best route for an address: none, where no route matches, and otherwise one that matches and has
-- the longest prefix among those that match.
abbrev pub IsBest : RoutingTable → ℕ → Option Route → Type 0
IsBest table dst none = (len prefix : ℕ) (route : Route) → ¬ (Matches table dst len prefix route)
IsBest table dst (some best) =
    (len : ℕ) × (prefix : ℕ) × Matches table dst len prefix best
    × ((len' prefix' : ℕ) (route : Route) → Matches table dst len' prefix' route → len' ≤ len)

-- A route of a table is one of its first length, or one of the others.
Matches-cases :
    (l dst len prefix : ℕ) (routes : Map Route) (rest : RoutingTable) (route : Route)
    → Matches ((l, routes) ∷ rest) dst len prefix route
    → ((len ≡ l) × (routes prefix ≡ some route)) ⊎ Matches rest dst len prefix route
unfolding routes_at
Matches-cases l dst len prefix routes rest route m = elim (Bool-cases (l == len)) [
  | inl q ↦ inl (sym (==→eq l len q), rw q at m.in_table)
  | inr q ↦ inr (record { in_table = rw q at m.in_table; short = m.short; agrees = m.agrees })
]

Matches-rest :
    (l dst len prefix : ℕ) (routes : Map Route) (rest : RoutingTable) (route : Route)
    → IsTable l rest
    → Matches rest dst len prefix route
    → Matches ((l, routes) ∷ rest) dst len prefix route
unfolding routes_at
Matches-rest l dst len prefix routes rest route t m =
    let b = routes_at-bound l len prefix rest route t m.in_table in
    record {
      in_table = rw (ne→== l len (λ e. omega arith)) m.in_table;
      short = m.short;
      agrees = m.agrees;
    }

module _ (dst l : ℕ) (routes : Map Route) (rest : RoutingTable) (small : dst < u32) (h : l ≤ 32)
    (c : (prefix : ℕ) (route : Route) → routes prefix ≡ some route → IsPrefix l prefix)
    (t : IsTable l rest) where
  IsBest-here :
      (route : Route)
      → routes (dst_route_prefix l routes dst) ≡ some route
      → IsBest ((l, routes) ∷ rest) dst (some route)
  unfolding routes_at
  IsBest-here route e = (
    l,
    dst_route_prefix l routes dst,
    record { in_table = rw (==_self l) e; short = h; agrees = agrees-key dst small l routes h c },
    λ len prefix other m. elim (Matches-cases l dst len prefix routes rest other m) [
      | inl (same, _) ↦ omega arith
      | inr later ↦ let b = routes_at-bound l len prefix rest other t later.in_table in omega arith
    ],
  )

  not_here :
      {len prefix : ℕ} {route : Route}
      → routes (dst_route_prefix l routes dst) ≡ none
      → len ≡ l
      → routes prefix ≡ some route
      → ¬ (Matches ((l, routes) ∷ rest) dst len prefix route)
  not_here {len} {prefix} {route} e same f m =
      let key =
        key-agrees dst small l prefix routes route h c f
          (subst (λ n. dst / 2 ^ (32 - n) ≡ prefix / 2 ^ (32 - n)) same m.agrees) in
      none-ne-some route (sym e ∙ ap routes key ∙ f)

  IsBest-later :
      (o : Option Route)
      → routes (dst_route_prefix l routes dst) ≡ none
      → IsBest rest dst o
      → IsBest ((l, routes) ∷ rest) dst o
  IsBest-later none e best = λ len prefix route m.
      elim (Matches-cases l dst len prefix routes rest route m) [
        | inl (same, f) ↦ not_here e same f m
        | inr later ↦ best len prefix route later
      ]
  IsBest-later (some r) e (len, prefix, m, longest) = (
    len,
    prefix,
    Matches-rest l dst len prefix routes rest r t m,
    λ len' prefix' route m'. elim (Matches-cases l dst len' prefix' routes rest route m') [
      | inl (same, f) ↦ absurd (not_here e same f m')
      | inr later ↦ longest len' prefix' route later
    ],
  )

-- In a table whose prefix lengths decrease and are at most 32 and whose prefixes have no bit set
-- beyond their length, `find_route` finds for every 32-bit address the route of the longest prefix
-- that agrees with the address in its first bits, and none only if no prefix agrees.
pub find_route-IsBest :
    (bound : ℕ) (table : RoutingTable) (dst : ℕ)
    → IsTable bound table
    → bound ≤ 33
    → dst < u32
    → IsBest table dst (find_route table dst)
unfolding find_route
find_route-IsBest bound [] dst t h small =
    λ len prefix route m. none-ne-some route (unfold routes_at in m.in_table)
find_route-IsBest bound ((l, routes) ∷ rest) dst (b, c, t) h small =
    elim (Option-cases (routes (dst_route_prefix l routes dst))) [
      | inl e ↦ rw e (
          IsBest-later dst l routes rest small (omega arith) c t (find_route rest dst) e
            (find_route-IsBest l rest dst t (omega arith) small))
      | inr (route, e) ↦ rw e (IsBest-here dst l routes rest small (omega arith) c t route e)
    ]
