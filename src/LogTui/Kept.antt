-- ===== src/LogTui/Kept.antt =====
-- The entries that log-tui/src/app.rs keeps, against all that were delivered: messages and keys.
use amos2026ss01_zero_downti.Prelude.{
  newest, newest-then, drop_all, ℕ, suc, ◌+◌, ◌-◌, ◌≡◌, refl, sym, ap, ◌∙◌, subst, Bool, true,
  false, not, ◌&&◌, Option, some, none, List, [], ◌∷◌, ◌++◌, length, drop, ltb, ◌==◌, ==_iff, arith,
  Bool-cases, inl, inr, if◌then◌else◌,
}
use amos2026ss01_zero_downti.Logs.{LogLevel, info, warn, error}
use amos2026ss01_zero_downti.Logs.Events.{LogEvent}
use amos2026ss01_zero_downti.LogTui.{
  App, Msg, MsgKind, KeyCode, char, esc, down, up, left, other, is_c, Effect, reconnect, trim,
  push_log, received, on_msg, set_level, select_next, select_prev, select_all, pressed, on_key,
  same_min_level,
}
use amos2026ss01_zero_downti.LogTui.Run.{preselect, on_msgs}

-- What was delivered: the entries of the messages with the epoch of their time, since the last time
-- that the user cleared the pane.
abbrev pub told_kind : MsgKind → List LogEvent → List LogEvent
told_kind (MsgKind.log ev) h = h ++ ev ∷ []
told_kind _ h = h

abbrev pub told : Msg → App → List LogEvent → List LogEvent
told msg a h = if msg.epoch == a.epoch then told_kind msg.kind h else h

abbrev pub told_all : List Msg → App → List LogEvent → List LogEvent
told_all [] a h = h
told_all (msg ∷ msgs) a h = told_all msgs (on_msg msg a) (told msg a h)

pub trim_lem : (m : ℕ) (logs : List LogEvent) → trim m logs ≡ newest m logs
unfolding trim
trim_lem m [] = sym (drop_all (0 - m))
trim_lem m (e ∷ logs) = elim (Bool-cases (ltb m (suc (length logs)))) [
  | inl over ↦
      let count : suc (length logs - m) ≡ suc (length logs) - m = ground arith in
      rw over (trim_lem m logs ∙ ap (λ k. drop k (e ∷ logs)) count)
  | inr under ↦
      let count : 0 ≡ suc (length logs) - m = ground arith in
      rw under (ap (λ k. drop k (e ∷ logs)) count)
]

-- The state keeps the newest `n` of what was delivered.
pub record Keeps (n : ℕ) (h : List LogEvent) (a : App) : Type 0 where
  pub same_max : a.max_logs ≡ n
  pub logs : a.logs ≡ newest n h

pub received-Keeps :
    (n : ℕ) (k : MsgKind) (h : List LogEvent) (a : App)
    → Keeps n h a
    → Keeps n (told_kind k h) (received k a)
unfolding received push_log
received-Keeps n (MsgKind.log ev) h a e = record {
  same_max = e.same_max;
  logs =
      trim_lem a.max_logs (a.logs ++ ev ∷ [])
      ∙ (λ i. newest (e.same_max i) (e.logs i ++ ev ∷ []))
      ∙ newest-then n h ev;
}
received-Keeps n MsgKind.connected h a e = record { same_max = e.same_max; logs = e.logs }
received-Keeps n (MsgKind.disconnected x) h a e = record { same_max = e.same_max; logs = e.logs }
received-Keeps n (MsgKind.parse_warn x) h a e = record { same_max = e.same_max; logs = e.logs }

pub on_msg-Keeps :
    (n : ℕ) (msg : Msg) (h : List LogEvent) (a : App)
    → Keeps n h a
    → Keeps n (told msg a h) (on_msg msg a)
unfolding on_msg
on_msg-Keeps n msg h a e = elim (Bool-cases (msg.epoch == a.epoch)) [
  | inl same ↦ rw same (received-Keeps n msg.kind h a e)
  | inr stale ↦ rw stale e
]

pub on_msgs-Keeps :
    (n : ℕ) (msgs : List Msg) (h : List LogEvent) (a : App)
    → Keeps n h a
    → Keeps n (told_all msgs a h) (on_msgs msgs a)
on_msgs-Keeps n [] h a e = e
on_msgs-Keeps n (msg ∷ msgs) h a e =
    on_msgs-Keeps n msgs (told msg a h) (on_msg msg a) (on_msg-Keeps n msg h a e)

module _ (n : ℕ) (h : List LogEvent) where
  pub if-Keeps :
      (b : Bool) (r s : App × List Effect)
      → Keeps n h r.0
      → Keeps n h s.0
      → Keeps n h (if b then r else s).0
  if-Keeps true r s hr hs = hr
  if-Keeps false r s hr hs = hs

  pub else-Keeps :
      (b : Bool) (r s : App × List Effect)
      → b ≡ false
      → Keeps n h s.0
      → Keeps n h (if b then r else s).0
  else-Keeps b r s e hs = rw e hs

  pub reconnect-Keeps : (a : App) → Keeps n h a → Keeps n h (reconnect a).0
  unfolding reconnect
  reconnect-Keeps a e = record { same_max = e.same_max; logs = e.logs }

  pub set_level-Keeps : (l : Option LogLevel) (a : App) → Keeps n h a → Keeps n h (set_level l a).0
  unfolding set_level
  set_level-Keeps l a e =
      if-Keeps (same_min_level a.min_level l) (a, []) _ e
        (reconnect-Keeps (record a { min_level = l })
          (record { same_max = e.same_max; logs = e.logs }))

  pub select_next-Keeps : (a : App) → Keeps n h a → Keeps n h (select_next a).0
  unfolding select_next
  select_next-Keeps a e =
      if-Keeps (ltb a.selected (length a.devices)) _ (a, [])
        (reconnect-Keeps (record a { selected = a.selected + 1 })
          (record { same_max = e.same_max; logs = e.logs }))
        e

  pub select_prev-Keeps : (a : App) → Keeps n h a → Keeps n h (select_prev a).0
  unfolding select_prev
  select_prev-Keeps a e =
      if-Keeps (ltb 0 a.selected) _ (a, [])
        (reconnect-Keeps (record a { selected = a.selected - 1 })
          (record { same_max = e.same_max; logs = e.logs }))
        e

  pub select_all-Keeps : (a : App) → Keeps n h a → Keeps n h (select_all a).0
  unfolding select_all
  select_all-Keeps a e =
      if-Keeps (a.selected == 0) (a, []) _ e
        (reconnect-Keeps (record a { selected = 0 })
          (record { same_max = e.same_max; logs = e.logs }))

  pub preselect-Keeps : (pos : Option ℕ) (a : App) → Keeps n h a → Keeps n h (preselect pos a)
  preselect-Keeps none a e = e
  preselect-Keeps (some pos) a e = record { same_max = e.same_max; logs = e.logs }

  pub same-Keeps :
      {a b : App} → Keeps n h a → b.max_logs ≡ a.max_logs → b.logs ≡ a.logs → Keeps n h b
  same-Keeps e m l = record { same_max = m ∙ e.same_max; logs = l ∙ e.logs }

  pub char-Keeps :
      (c : ℕ) (a : App) → (c == b'c') ≡ false → Keeps n h a → Keeps n h (pressed (char c) a).0
  unfolding pressed
  char-Keeps c a no_c e = if-Keeps (c == b'q') _ _ (same-Keeps e refl refl) (
      if-Keeps (c == b'0') _ _ (set_level-Keeps none a e) (
        if-Keeps (c == b'1') _ _ (set_level-Keeps (some info) a e) (
          if-Keeps (c == b'2') _ _ (set_level-Keeps (some warn) a e) (
            if-Keeps (c == b'3') _ _ (set_level-Keeps (some error) a e) (
              else-Keeps (c == b'c') _ _ no_c (
                if-Keeps (c == b'u') _ _ (same-Keeps e refl refl) (
                  if-Keeps (c == b'd') _ _ (same-Keeps e refl refl) (
                    if-Keeps (c == b'j') _ _ (select_next-Keeps a e) (
                      if-Keeps (c == b'k') _ _ (select_prev-Keeps a e)
                        (if-Keeps (c == b'a') _ _ (select_all-Keeps a e) e))))))))))

  pub pressed-Keeps :
      (code : KeyCode) (a : App) → is_c code ≡ false → Keeps n h a → Keeps n h (pressed code a).0
  unfolding pressed
  pressed-Keeps (char c) a no_c e = char-Keeps c a no_c e
  pressed-Keeps esc a no_c e = same-Keeps e refl refl
  pressed-Keeps down a no_c e = select_next-Keeps a e
  pressed-Keeps up a no_c e = select_prev-Keeps a e
  pressed-Keeps left a no_c e = select_all-Keeps a e
  pressed-Keeps other a no_c e = e

pub cleared-Keeps :
    (n : ℕ) (code : KeyCode) (a : App)
    → is_c code ≡ true
    → a.max_logs ≡ n
    → Keeps n [] (pressed code a).0
unfolding pressed
cleared-Keeps n (char c) a h e =
    subst (λ k. Keeps n [] (pressed (char k) a).0) (sym ((==_iff c b'c').0 h))
      (record { same_max = e; logs = sym (drop_all (0 - n)) })
cleared-Keeps n esc a h e = absurd (cc)
cleared-Keeps n down a h e = absurd (cc)
cleared-Keeps n up a h e = absurd (cc)
cleared-Keeps n left a h e = absurd (cc)
cleared-Keeps n other a h e = absurd (cc)

pub on_key-Keeps :
    (n : ℕ) (code : KeyCode) (control : Bool) (h : List LogEvent) (a : App)
    → Keeps n h a
    → Keeps n (if is_c code && not control then [] else h) (on_key code control a).0
unfolding on_key
on_key-Keeps n code true h a e = elim (Bool-cases (is_c code)) [
  | inl c ↦ rw c (same-Keeps n h e refl refl)
  | inr no_c ↦ rw no_c (pressed-Keeps n h code a no_c e)
]
on_key-Keeps n code false h a e = elim (Bool-cases (is_c code)) [
  | inl c ↦ rw c (cleared-Keeps n code a c e.same_max)
  | inr no_c ↦ rw no_c (pressed-Keeps n h code a no_c e)
]
