-- ===== src/GapCheck/Client.antt =====
-- `main` of the firehose's test client (relay/cmd/test-firehose/main.go): the lines that it prints.
-- The dial and the parsing of JSON are arguments; the reader stops where the last `select` ends.
use at_protocol_infrastructu.Prelude.{
  ℕ, ◌%◌, ◌||◌, Option, none, some, List, [], ◌∷◌, ◌++◌, String, ltb, leb, ◌==◌, if◌then◌else◌, map,
  nat_eq,
}
use at_protocol_infrastructu.Prelude.Int.{ℤ}
use at_protocol_infrastructu.Prelude.Result.{Result, ok, err}
use at_protocol_infrastructu.Ingest.Event.{Bytes}
use at_protocol_infrastructu.GapCheck.{Seen, nothing_seen, on_message}

pub record FirehoseMessage : Type 0 where
  pub seq : ℤ
  pub type : String
  pub did : String
  pub commit_cid : String
  pub time : String
  pub host : String

-- A line that is printed.
pub data Line : Type 0 where
  connecting : String → Line
  waiting_for_events : Line
  event_line : ℕ → FirehoseMessage → Line
  raw_line : ℕ → Bytes → Line
  received_line : ℕ → ℤ → Line
  timeout_line : ℕ → ℤ → Line
  errors_line : Line
  gap_line : ℤ × ℤ → Line
  all_in_order : Line

-- The case of the last `select`.
pub data Ending : Type 0 where
  done interrupted timed_out : Ending

-- `os.Args`, the name of the program first.
unfoldable pub url_of : List String → String
url_of (_ ∷ url ∷ _) = url
url_of _ = "ws://127.0.0.1:2470/xrpc/com.atproto.sync.subscribeRepos"

-- What is printed for a message; the count has it already.
unfoldable pub shown : Seen → Bytes → Option FirehoseMessage → List Line
shown s message none = raw_line s.count message ∷ []
shown s message (some msg) =
    if leb s.count 10 || s.count % 100 == 0 then event_line s.count msg ∷ [] else []

abbrev pub number_of : Option FirehoseMessage → Option ℤ
number_of none = none
number_of (some msg) = some msg.seq

unfoldable pub stopped_by : Ending → Seen → List Line
stopped_by done s = []
stopped_by interrupted s = received_line s.count s.last_seq ∷ []
stopped_by timed_out s = timeout_line s.count s.last_seq ∷ []

unfoldable pub gaps : Seen → List (ℤ × ℤ) → List Line
gaps s [] = if ltb 0 s.count then all_in_order ∷ [] else []
gaps s (e ∷ rest) = errors_line ∷ map gap_line (e ∷ rest)

unfoldable pub report : Seen → List Line
unfolding gaps
report s = gaps s s.seq_errors

module _ (unmarshal : Bytes → Option FirehoseMessage) where
  -- The goroutine that reads.
  unfoldable pub read : Seen → List Bytes → Seen × List Line
  unfolding shown
  read s [] = (s, [])
  read s (message ∷ rest) =
      let s' = on_message s (number_of (unmarshal message)) in
      let (t, lines) = read s' rest in (t, shown s' message (unmarshal message) ++ lines)

  -- The lines until the end, or until a dial that failed.
  unfoldable pub main :
      List String
      → (String → Result String (Unit {0}))
      → List Bytes
      → Ending
      → List Line × Result String (Unit {0})
  unfolding url_of read stopped_by report
  main args dial messages ending =
      let start = connecting (url_of args) ∷ [] in
      elim (dial (url_of args)) [
        | err e ↦ (start, err e)
        | ok _ ↦
            let (s, lines) = read nothing_seen messages in
            (start ++ (waiting_for_events ∷ (lines ++ (stopped_by ending s ++ report s))), ok tt)
      ]
