-- ===== src/Agents/Synced.antt =====
-- What is known of the agents' sessions after tmux was asked for its sessions.
use symposium.Prelude.{
  Result, ok, err, true, keep, Elem, Elem-cons, here, there, sym, ◌↔◌, ◌⊎◌, Bool, false, Bool-cases,
  not, Option, some, none, List, [], ◌∷◌, map, ◌≡◌, refl, ap, ◌∙◌, subst, inl, inr, if◌then◌else◌,
  arith,
}
use symposium.Prelude.Text.{Text, codes, lines, starts_with, text_eq, text_eq_iff}
use symposium.Prelude.Assoc
use symposium.Prelude.Assoc.{text_key, get-remove}
use symposium.Agents.{
  AgentStatus, starting, running, crashed, stopped, AgentSession, Sessions, AgentManager, Outside,
  Output, contains, tmux_sessions, synced_status, update_status, to_remove, remove_all, synced,
  sync_with_tmux,
}

-- A session that tmux lists stays, and is running if it is not starting.
abbrev pub revived : AgentStatus → AgentStatus
revived starting = starting
revived running = running
revived crashed = running
revived stopped = running

abbrev pub kept : List Text → Option AgentSession → Option AgentSession
kept names none = none
kept names (some s) =
    if contains s.tmux_session_name names
    then some (record s { status = revived s.status })
    else none

-- Each key has one entry.
abbrev pub IsMap : Sessions → Type 0
IsMap [] = Unit
IsMap ((uuid, s) ∷ sessions) = (Assoc.get uuid sessions ≡ none) × IsMap sessions

module _ (names : List Text) where
  get-remove_all :
      (uuids : List Text) (sessions : Sessions) (uuid : Text)
      → Assoc.get uuid (remove_all uuids sessions)
        ≡ (if contains uuid uuids then none else Assoc.get uuid sessions)
  unfolding remove_all
  get-remove_all [] sessions uuid = refl
  get-remove_all (u ∷ uuids) sessions uuid =
      ground
        (arith, get-remove_all uuids (Assoc.remove u sessions) uuid, get-remove u uuid sessions)

  abbrev updated : Sessions → Sessions
  updated sessions = map (λ e. (e.0, update_status names e.1)) sessions

  abbrev updated_one : Option AgentSession → Option AgentSession
  updated_one none = none
  updated_one (some s) = some (update_status names s)

  get-updated :
      (sessions : Sessions) (uuid : Text)
      → Assoc.get uuid (updated sessions) ≡ updated_one (Assoc.get uuid sessions)
  unfolding Assoc.get
  get-updated [] uuid = refl
  get-updated ((u, s) ∷ sessions) uuid = elim (Bool-cases (text_eq u uuid)) [
    | inl t ↦ rw (t, Assoc.get) refl
    | inr f ↦ rw (f, Assoc.get) (get-updated sessions uuid)
  ]

  updated-IsMap : (sessions : Sessions) → IsMap sessions → IsMap (updated sessions)
  updated-IsMap [] h = tt
  updated-IsMap ((u, s) ∷ sessions) h =
      (get-updated sessions u ∙ ap updated_one h.0, updated-IsMap sessions h.1)

  -- Whether a session that may be there is one to remove.
  abbrev unlisted : Option AgentSession → Bool
  unlisted none = false
  unlisted (some s) = not (contains s.tmux_session_name names)

  contains-to_remove :
      (sessions : Sessions) (uuid : Text)
      → IsMap sessions
      → contains uuid (to_remove names sessions) ≡ unlisted (Assoc.get uuid sessions)
  unfolding to_remove Assoc.get
  contains-to_remove [] uuid h = refl
  contains-to_remove ((u, s) ∷ sessions) uuid h =
      let ih = contains-to_remove sessions uuid h.1 in
      elim (Bool-cases (text_eq u uuid)) [
        | inr f ↦ elim (Bool-cases (contains s.tmux_session_name names)) [
          | inl l ↦ rw (f, l) ih
          | inr l ↦ rw (f, l) (rw (f) ih)
        ]
        | inl t ↦
            let e : Assoc.get uuid sessions ≡ none =
              subst (λ k. Assoc.get k sessions ≡ none) ((text_eq_iff u uuid).0 t) h.0 in
            elim (Bool-cases (contains s.tmux_session_name names)) [
              | inl l ↦ rw (t, l) (ih ∙ ap unlisted e)
              | inr l ↦ rw (t, l) (rw (t) refl)
            ]
      ]

  -- What is left of a session when its removal is known.
  abbrev left : Option AgentSession → Bool → Option AgentSession
  left o b = if b then none else o

  left-updated :
      (o : Option AgentSession) → left (updated_one o) (unlisted (updated_one o)) ≡ kept names o
  unfolding update_status synced_status
  left-updated none = refl
  left-updated (some s) = elim (Bool-cases (contains s.tmux_session_name names)) [
    | inl l ↦ rw (l) refl
    | inr l ↦ rw (l) refl
  ]

  get-synced :
      (sessions : Sessions) (uuid : Text)
      → IsMap sessions
      → Assoc.get uuid (synced names sessions) ≡ kept names (Assoc.get uuid sessions)
  unfolding synced
  get-synced sessions uuid h =
      get-remove_all (to_remove names (updated sessions)) (updated sessions) uuid
      ∙ ap (left (Assoc.get uuid (updated sessions)))
          (contains-to_remove (updated sessions) uuid (updated-IsMap sessions h))
      ∙ ap (λ o. left o (unlisted o)) (get-updated sessions uuid)
      ∙ left-updated (Assoc.get uuid sessions)

-- tmux lists a session of this program by this name: it succeeds, and the name is a line of its
-- output that begins as the program's names do.
abbrev pub IsListed : Result Text Output → Text → Type 0
IsListed (err e) name = ⊥
IsListed (ok output) name =
    (output.success ≡ true)
    × (starts_with name (codes "symposium-agent-") ≡ true)
    × Elem name (lines output.stdout)

contains-keep :
    (p : Text → Bool) (name : Text) (names : List Text)
    → (contains name (keep p names) ≡ true) ↔ ((p name ≡ true) × Elem name names)
contains-keep p name [] = (λ h. cc, λ (h, e). elim e [ ])
contains-keep p name (n ∷ names) =
    let (to, back) = contains-keep p name names in
    elim (Bool-cases (p n)) [
      | inr f ↦
          rw (f, keep)
            (
              λ h. let (a, b) = to h in (a, there b),
              λ (a, b). elim (Elem-cons b) [ inl same ↦ cc | inr later ↦ back (a, later) ],
            )
      | inl t ↦ elim (Bool-cases (text_eq n name)) [
        | inl e ↦
            let same = (text_eq_iff n name).0 e in
            rw (t, keep, e)
              (
                λ h. (subst (λ k. p k ≡ true) same t, subst (λ k. Elem k (n ∷ names)) same here),
                λ h. refl,
              )
        | inr d ↦
            rw (t, keep, d)
              (
                λ h. let (a, b) = to h in (a, there b),
                λ (a, b). elim (Elem-cons b) [
                  | inl same ↦ let e = (text_eq_iff n name).1 (sym same) in cc
                  | inr later ↦ back (a, later)
                ],
              )
      ]
    ]

tmux_sessions-IsListed :
    (r : Result Text Output) (name : Text)
    → (contains name (tmux_sessions r) ≡ true) ↔ IsListed r name
unfolding tmux_sessions
tmux_sessions-IsListed (err e) name = (λ h. cc, λ h. absurd h)
tmux_sessions-IsListed (ok output) name = elim (Bool-cases output.success) [
  | inl t ↦
      let (to, back) =
        contains-keep (λ line. starts_with line (codes "symposium-agent-")) name
          (lines output.stdout) in
      rw (t, tmux_sessions) (λ h. let (a, b) = to h in (refl, a, b), λ (s, a, b). back (a, b))
  | inr f ↦ rw (f, tmux_sessions) (λ h. cc, λ (s, a, b). cc)
]

get-sync_with_tmux-kept :
    {W : Type 0} (outside : Outside W) (m : AgentManager) (w : W) (uuid : Text)
    → IsMap m.sessions
    → Assoc.get uuid (sync_with_tmux outside m w).1.sessions
      ≡ kept (tmux_sessions (outside.list_sessions w).0) (Assoc.get uuid m.sessions)
unfolding sync_with_tmux
get-sync_with_tmux-kept outside m w uuid h =
    get-synced (tmux_sessions (outside.list_sessions w).0) m.sessions uuid h

-- What is known of a session after a sync, by what was known of it.
abbrev pub Synced : Result Text Output → (before after : Option AgentSession) → Type 0
Synced r none after = after ≡ none
Synced r (some s) after =
    (IsListed r s.tmux_session_name × (after ≡ some (record s { status = revived s.status })))
    ⊎ ((IsListed r s.tmux_session_name → ⊥) × (after ≡ none))

Synced-kept :
    (r : Result Text Output) (before : Option AgentSession)
    → Synced r before (kept (tmux_sessions r) before)
Synced-kept r none = refl
Synced-kept r (some s) =
    let (to, back) = tmux_sessions-IsListed r s.tmux_session_name in
    elim (Bool-cases (contains s.tmux_session_name (tmux_sessions r))) [
      | inl t ↦ inl (to t, rw t refl)
      | inr f ↦ inr (λ h. let b = back h in cc, rw f refl)
    ]

-- After tmux was asked for its sessions, a manager knows exactly those of its sessions that tmux
-- lists, as they were, except that a session with the status crashed or stopped is now running. So
-- no session is known as crashed or stopped. This holds whether the result can be saved or not.
pub get-sync_with_tmux :
    {W : Type 0} (outside : Outside W) (m : AgentManager) (w : W) (uuid : Text)
    → IsMap m.sessions
    → Synced
        (outside.list_sessions w).0
        (Assoc.get uuid m.sessions)
        (Assoc.get uuid (sync_with_tmux outside m w).1.sessions)
get-sync_with_tmux outside m w uuid h =
    subst (Synced (outside.list_sessions w).0 (Assoc.get uuid m.sessions))
      (sym (get-sync_with_tmux-kept outside m w uuid h))
      (Synced-kept (outside.list_sessions w).0 (Assoc.get uuid m.sessions))
