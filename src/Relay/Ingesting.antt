-- ===== src/Relay/Ingesting.antt =====
-- The check `ingest` of relay/cmd/relay/main.go.
use at_protocol_infrastructu.Prelude.{
  ◌≤◌, ◌≡◌, ◌≢◌, refl, ◌↔◌, true, false, List, [], ◌∷◌, String, length, All, arith, ltb, string_eq,
  nat_eq,
}
use at_protocol_infrastructu.Ingest.Manager.{Manager, get_hosts, get_host_status}
use at_protocol_infrastructu.Health.{healthy, unhealthy}
use at_protocol_infrastructu.Relay.{count_connected, ingest_status}

abbrev pub IsUp : Manager → String → Type 0
IsUp m host = (get_host_status m host).0 ≡ true

abbrev pub IsDown : Manager → String → Type 0
IsDown m host = (get_host_status m host).0 ≡ false

count_le : (m : Manager) (hosts : List String) → count_connected m hosts ≤ length hosts
unfolding count_connected
count_le m [] = ground arith
count_le m (h ∷ hosts) = ground (arith, count_le m hosts)

count-All :
    (m : Manager) (hosts : List String)
    → All (IsUp m) hosts
    → count_connected m hosts ≡ length hosts
unfolding count_connected
count-All m [] a = refl
count-All m (h ∷ hosts) a = ground (arith, a.0, count-All m hosts a.1)

All-of_count :
    (m : Manager) (hosts : List String)
    → count_connected m hosts ≡ length hosts
    → All (IsUp m) hosts
unfolding count_connected
All-of_count m [] e = tt
All-of_count m (h ∷ hosts) e = ground (arith, count_le m hosts, All-of_count m hosts)

count_none :
    (m : Manager) (hosts : List String) → All (IsDown m) hosts → count_connected m hosts ≡ 0
unfolding count_connected
count_none m [] a = refl
count_none m (h ∷ hosts) a = ground (arith, a.0, count_none m hosts a.1)

none_of_count :
    (m : Manager) (hosts : List String) → count_connected m hosts ≡ 0 → All (IsDown m) hosts
unfolding count_connected
none_of_count m [] e = tt
none_of_count m (h ∷ hosts) e = ground (arith, none_of_count m hosts)

length_zero : (hosts : List String) → ltb 0 (length hosts) ≡ true → hosts ≢ []
length_zero [] e = cc
length_zero (h ∷ hosts) e = λ q. cc

length_pos : (hosts : List String) → hosts ≢ [] → ltb 0 (length hosts) ≡ true
length_pos [] n = elim (n refl) [ ]
length_pos (h ∷ hosts) n = ground arith

-- The ingest check is healthy exactly if every host is connected, and unhealthy exactly if there
-- are hosts and none is connected.
pub ingest_status_iff :
    (m : Manager)
    → ((ingest_status m ≡ healthy) ↔ All (IsUp m) (get_hosts m))
      × ((ingest_status m ≡ unhealthy) ↔ ((get_hosts m ≢ []) × All (IsDown m) (get_hosts m)))
unfolding ingest_status
ingest_status_iff m =
    let hosts : List String = get_hosts m in
    (
      (
        λ e. All-of_count m hosts (ground (arith, count_le m hosts)),
        λ a. ground (arith, count-All m hosts a),
      ),
      (
        λ e. (length_zero hosts (ground arith), none_of_count m hosts (ground arith)),
        λ a. ground (arith, length_pos hosts a.0, count_none m hosts a.1),
      ),
    )
