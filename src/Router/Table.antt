-- ===== src/Router/Table.antt =====
-- What `add_route` leaves of the routing table.
use computer_networking.Prelude.{
  ℕ, ◌≤◌, ◌<◌, Option, some, [], ◌∷◌, ltb, ◌==◌, ◌≡◌, ◌≢◌, sym, ap, ◌∙◌, subst, inl, inr,
  Bool-cases, arith, ==→eq, ==→ne, ==_self, ne→==, ltb→lt, ltb→ge,
}
use mathlib.Core.Option.{none-ne-some}
use computer_networking.Maps.{Map, insert, insert-same, insert-other}
use computer_networking.Router.Lookup.{IsPrefix, IsTable}
use computer_networking.Router.{Route, RoutingTable, Router, routes_at, assign, add_route}

routes_at-assign_same :
    (len : ℕ) (m : Map Route) (table : RoutingTable) → routes_at len (assign len m table) ≡ m
unfolding routes_at assign
routes_at-assign_same len m [] = rw (==_self len)
routes_at-assign_same len m ((l, routes) ∷ rest) = elim (Bool-cases (l == len)) [
  | inl q ↦ rw (q, ==_self len)
  | inr q ↦ elim (Bool-cases (ltb l len)) [
    | inl r ↦ rw (q, r, ==_self len)
    | inr r ↦ rw (q, r, q) (routes_at-assign_same len m rest)
  ]
]

routes_at-assign_other :
    (len k : ℕ) (m : Map Route) (table : RoutingTable)
    → k ≢ len
    → routes_at k (assign len m table) ≡ routes_at k table
unfolding routes_at assign
routes_at-assign_other len k m [] n = rw (ne→== len k (λ e. n (sym e)))
routes_at-assign_other len k m ((l, routes) ∷ rest) n = elim (Bool-cases (l == len)) [
  | inl q ↦ rw (q, ne→== len k (λ e. n (sym e)), ne→== l k (λ e. n (sym e ∙ ==→eq l len q)))
  | inr q ↦ elim (Bool-cases (ltb l len)) [
    | inl r ↦ rw (q, r, ne→== len k (λ e. n (sym e)))
    | inr r ↦ rw (q, r, routes_at-assign_other len k m rest n)
  ]
]

assign-IsTable :
    (bound len : ℕ) (m : Map Route) (table : RoutingTable)
    → IsTable bound table
    → len < bound
    → ((prefix : ℕ) (route : Route) → m prefix ≡ some route → IsPrefix len prefix)
    → IsTable bound (assign len m table)
unfolding assign
assign-IsTable bound len m [] t b c = (b, c, tt)
assign-IsTable bound len m ((l, routes) ∷ rest) (lb, lc, t) b c = elim (Bool-cases (l == len)) [
  | inl q ↦ rw q (b, c, subst (λ k. IsTable k rest) (==→eq l len q) t)
  | inr q ↦ elim (Bool-cases (ltb l len)) [
    | inl r ↦ rw (q, r) (b, c, (ltb→lt l len r, lc, t))
    | inr r ↦
        rw (q, r)
          (lb, lc, assign-IsTable l len m rest t (omega (arith, ltb→ge l len r, ==→ne l len q)) c)
  ]
]

-- The entry at a prefix length of a table in order has right prefixes.
routes_at-IsPrefix :
    (bound len : ℕ) (table : RoutingTable)
    → IsTable bound table
    → (prefix : ℕ) (route : Route) → routes_at len table prefix ≡ some route
    → IsPrefix len prefix
unfolding routes_at
routes_at-IsPrefix bound len [] t prefix route e = absurd (none-ne-some route e)
routes_at-IsPrefix bound len ((l, routes) ∷ rest) (b, c, t) prefix route e =
    elim (Bool-cases (l == len)) [
      | inl q ↦ subst (λ k. IsPrefix k prefix) (==→eq l len q) (c prefix route (rw q at e))
      | inr q ↦ routes_at-IsPrefix l len rest t prefix route (rw q at e)
    ]

-- On a table in order with right prefixes, `add_route` of a prefix of at most 32 bits with no bit
-- set beyond its length keeps both; the table then has the new route for the prefix, and every other
-- route as before.
pub add_route-IsTable :
    (prefix len : ℕ) (next_hop : Option ℕ) (i : ℕ) (r : Router)
    → IsTable 33 r.routing_table
    → len ≤ 32
    → IsPrefix len prefix
    → IsTable 33 (add_route prefix len next_hop i r).routing_table
      × (routes_at len (add_route prefix len next_hop i r).routing_table prefix
          ≡ some (record { next_hop = next_hop; interface_num = i }))
      × ((p : ℕ)
          → p ≢ prefix
          → routes_at len (add_route prefix len next_hop i r).routing_table p
            ≡ routes_at len r.routing_table p)
      × ((k : ℕ)
          → k ≢ len
          → routes_at k (add_route prefix len next_hop i r).routing_table
            ≡ routes_at k r.routing_table)
unfolding add_route
add_route-IsTable prefix len next_hop i r t h c =
    let route : Route = record { next_hop = next_hop; interface_num = i } in
    let routes = insert prefix route (routes_at len r.routing_table) in
    let same = routes_at-assign_same len routes r.routing_table in
    (
      assign-IsTable 33 len routes r.routing_table t (omega arith) (λ p other e.
          elim (Bool-cases (p == prefix)) [
            | inl q ↦ subst (IsPrefix len) (sym (==→eq p prefix q)) c
            | inr q ↦ routes_at-IsPrefix 33 len r.routing_table t p other (rw q at e)
          ]),
      ap (λ m. m prefix) same ∙ insert-same prefix route (routes_at len r.routing_table),
      λ p n. ap (λ m. m p) same ∙ insert-other prefix p route (routes_at len r.routing_table) n,
      λ k n. routes_at-assign_other len k routes r.routing_table n,
    )
