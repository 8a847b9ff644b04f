-- ===== src/LogTui/Stream.antt =====
-- `stream_task` of log-tui/src/client.rs from the answer of the server on. What an item of the
-- stream parses to is the function `from_str`, and `is_open` tells whether the receiver of the
-- channel is still there after some messages.
use amos2026ss01_zero_downti.Prelude.{
  arith, ℕ, ◌≡◌, ◌≢◌, refl, Bool, true, false, List, [], ◌∷◌, ◌++◌, Result, ok, err, is_empty,
  if◌then◌else◌, ◌==◌, All, Bool-cases, inl, inr,
}
use amos2026ss01_zero_downti.Prelude.Text.{Str}
use amos2026ss01_zero_downti.Logs.Events.{LogEvent}
use amos2026ss01_zero_downti.LogTui.{
  App, Msg, MsgKind, connected, log, disconnected, parse_warn, on_msg,
}
use amos2026ss01_zero_downti.LogTui.Run.{on_msgs}

-- An event of the stream by its data, or the error that ends it.
pub data Item : Type 0 where
  event : Str → Item
  broken : Str → Item

module _ (from_str : Str → Result Str LogEvent) (is_open : List Msg → Bool) (epoch : ℕ) where
  -- A message to a receiver that is gone is lost.
  abbrev pub send : MsgKind → List Msg → List Msg
  send kind sent = if is_open sent then sent ++ record { epoch = epoch; kind = kind } ∷ [] else sent

  -- One item: the messages sent, and whether the loop goes on.
  abbrev pub parsed : Result Str LogEvent → List Msg → List Msg × Bool
  parsed (ok ev) sent = (send (log ev) sent, is_open sent)
  parsed (err e) sent = (send (parse_warn e) sent, true)

  unfoldable pub consume_one : Item → List Msg → List Msg × Bool
  consume_one (event text) sent =
      if is_empty text then (sent, true) else parsed (from_str text) sent
  consume_one (broken e) sent = (send (disconnected e) sent, false)

  unfoldable pub consume : List Item → List Msg → List Msg
  unfolding consume_one
  consume [] sent = sent
  consume (item ∷ items) sent =
      let (sent', goes_on) = consume_one item sent in
      let rest = consume items sent' in if goes_on then rest else sent'

  -- All messages that the task sends.
  unfoldable pub stream_task : Result Str (List Item) → List Msg
  unfolding consume
  stream_task (err e) = send (disconnected e) []
  stream_task (ok items) = consume items (send connected [])

  abbrev pub HasEpoch : List Msg → Type 0
  HasEpoch msgs = All (λ m. m.epoch ≡ epoch) msgs

  append-HasEpoch : (a b : List Msg) → HasEpoch a → HasEpoch b → HasEpoch (a ++ b)
  append-HasEpoch [] b ha hb = hb
  append-HasEpoch (m ∷ a) b (e, ha) hb = (e, append-HasEpoch a b ha hb)

  if-HasEpoch :
      (b : Bool) (x y : List Msg) → HasEpoch x → HasEpoch y → HasEpoch (if b then x else y)
  if-HasEpoch true x y hx hy = hx
  if-HasEpoch false x y hx hy = hy

  send-HasEpoch : (kind : MsgKind) (sent : List Msg) → HasEpoch sent → HasEpoch (send kind sent)
  send-HasEpoch kind sent h =
      if-HasEpoch (is_open sent) _ sent
        (append-HasEpoch sent (record { epoch = epoch; kind = kind } ∷ []) h (refl, tt)) h

  parsed-HasEpoch :
      (r : Result Str LogEvent) (sent : List Msg) → HasEpoch sent → HasEpoch (parsed r sent).0
  parsed-HasEpoch (ok ev) sent h = send-HasEpoch (log ev) sent h
  parsed-HasEpoch (err e) sent h = send-HasEpoch (parse_warn e) sent h

  consume_one-HasEpoch :
      (item : Item) (sent : List Msg) → HasEpoch sent → HasEpoch (consume_one item sent).0
  unfolding consume_one
  consume_one-HasEpoch (event text) sent h = elim (Bool-cases (is_empty text)) [
    | inl e ↦ rw e h
    | inr e ↦ rw e (parsed-HasEpoch (from_str text) sent h)
  ]
  consume_one-HasEpoch (broken e) sent h = send-HasEpoch (disconnected e) sent h

  consume-HasEpoch :
      (items : List Item) (sent : List Msg) → HasEpoch sent → HasEpoch (consume items sent)
  unfolding consume
  consume-HasEpoch [] sent h = h
  consume-HasEpoch (item ∷ items) sent h =
      let next = consume_one item sent in
      let h' = consume_one-HasEpoch item sent h in
      if-HasEpoch next.1 _ _ (consume-HasEpoch items next.0 h') h'

  stream_task-HasEpoch : (answer : Result Str (List Item)) → HasEpoch (stream_task answer)
  unfolding stream_task
  stream_task-HasEpoch (err e) = send-HasEpoch (disconnected e) [] tt
  stream_task-HasEpoch (ok items) =
      consume-HasEpoch items (send connected []) (send-HasEpoch connected [] tt)

  stale : (msgs : List Msg) (a : App) → HasEpoch msgs → a.epoch ≢ epoch → on_msgs msgs a ≡ a
  unfolding on_msg
  stale [] a h differs = refl
  stale (msg ∷ msgs) a (e, h) differs =
      let no : (msg.epoch == a.epoch) ≡ false = ground (arith) in rw no (stale msgs a h differs)

  -- Whatever a stream task sends, all of it leaves the state as it is once the state's epoch is
  -- another than the task's.
  pub on_msgs-stream_task :
      (answer : Result Str (List Item)) (a : App)
      → a.epoch ≢ epoch
      → on_msgs (stream_task answer) a ≡ a
  on_msgs-stream_task answer a differs =
      stale (stream_task answer) a (stream_task-HasEpoch answer) differs
