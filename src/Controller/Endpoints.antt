-- ===== src/Controller/Endpoints.antt =====
-- internal/controller/fsm.go, normalizeEndpoints and endpointsEqual.
-- TrimSpace and ToUpper of Go's strings are written out for ASCII text; on other code points Go's
-- functions follow Unicode.
use distributed_messaging_sy.Common.{
  ℕ, ◌-◌, Bool, true, false, not, ◌&&◌, ◌||◌, List, [], ◌∷◌, contains, bytes_eq, bytes_Eq, is_empty,
  ltb, leb, ◌==◌, if◌then◌else◌, map, length,
}
use distributed_messaging_sy.Controller.State.{
  BrokerEndpoint, Result, ok, ◌>>=◌, ◌>>◌, refuse_if, endpoint_required, name_required,
  host_required, port_required, unsupported_security, duplicate_endpoint,
}

-- Tab, line feed, vertical tab, form feed, carriage return, blank.
unfoldable pub is_space : ℕ → Bool
is_space c = leb 9 c && leb c 13 || c == 32

unfoldable pub trim_left : List ℕ → List ℕ
trim_left [] = []
trim_left (c ∷ cs) = let rest = trim_left cs in if is_space c then rest else c ∷ cs

unfoldable pub trim_right : List ℕ → List ℕ
trim_right [] = []
trim_right (c ∷ cs) =
    let rest = trim_right cs in if is_space c && is_empty rest then [] else c ∷ rest

unfoldable pub trim_space : List ℕ → List ℕ
trim_space s = trim_right (trim_left s)

unfoldable pub upper : ℕ → ℕ
upper c = if leb b'a' c && leb c b'z' then c - 32 else c

unfoldable pub to_upper : List ℕ → List ℕ
to_upper = map upper

-- `a < b` on Go strings.
unfoldable pub bytes_lt : List ℕ → List ℕ → Bool
bytes_lt [] [] = false
bytes_lt [] (b ∷ bs) = true
bytes_lt (a ∷ as') [] = false
bytes_lt (a ∷ as') (b ∷ bs) =
    let rest = bytes_lt as' bs in if ltb a b then true else if a == b then rest else false

-- sort.Slice by name. The names that are sorted differ, so the order is the only one.
unfoldable pub insert_endpoint : BrokerEndpoint → List BrokerEndpoint → List BrokerEndpoint
insert_endpoint e [] = e ∷ []
insert_endpoint e (f ∷ fs) =
    let rest = insert_endpoint e fs in if bytes_lt f.name e.name then f ∷ rest else e ∷ f ∷ fs

unfoldable pub sort_endpoints : List BrokerEndpoint → List BrokerEndpoint
unfolding insert_endpoint
sort_endpoints [] = []
sort_endpoints (e ∷ es) = insert_endpoint e (sort_endpoints es)

-- The loop body's changes to `out[i]`.
unfoldable pub normalize_endpoint : BrokerEndpoint → BrokerEndpoint
normalize_endpoint e = record e { name = to_upper (trim_space e.name); host = trim_space e.host }

-- The loop over the endpoints; `seen` is the set of the names so far.
unfoldable pub normalize_loop : List (List ℕ) → List BrokerEndpoint → Result (List BrokerEndpoint)
unfolding normalize_endpoint
normalize_loop seen [] = ok []
normalize_loop seen (e ∷ es) =
    let n = normalize_endpoint e in
    do
      refuse_if (is_empty n.name) name_required
      refuse_if (is_empty n.host) host_required
      refuse_if (n.port == 0) port_required
      refuse_if (not (n.security_protocol == 0)) unsupported_security
      refuse_if (contains seen n.name) duplicate_endpoint
      out ← normalize_loop (n.name ∷ seen) es
      ok (n ∷ out)

unfoldable pub normalize_endpoints : List BrokerEndpoint → Result (List BrokerEndpoint)
unfolding normalize_loop sort_endpoints
normalize_endpoints endpoints = do
  refuse_if (is_empty endpoints) endpoint_required
  out ← normalize_loop [] endpoints
  ok (sort_endpoints out)

unfoldable pub endpoint_eq : BrokerEndpoint → BrokerEndpoint → Bool
endpoint_eq a b =
    bytes_eq a.name b.name
    && (bytes_eq a.host b.host && (a.port == b.port && a.security_protocol == b.security_protocol))

unfoldable pub all_endpoints_eq : List BrokerEndpoint → List BrokerEndpoint → Bool
unfolding endpoint_eq
all_endpoints_eq [] [] = true
all_endpoints_eq [] (b ∷ bs) = false
all_endpoints_eq (a ∷ as') [] = false
all_endpoints_eq (a ∷ as') (b ∷ bs) = endpoint_eq a b && all_endpoints_eq as' bs

-- endpointsEqual
unfoldable pub endpoints_equal : List BrokerEndpoint → List BrokerEndpoint → Bool
unfolding all_endpoints_eq sort_endpoints
endpoints_equal a b =
    if length a == length b then all_endpoints_eq (sort_endpoints a) (sort_endpoints b) else false
