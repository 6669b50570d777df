-- ===== src/Server/Balance.antt =====
-- The table of sessions of source/EACopyServer.cpp over the life of a connection.
use eacopy.Base.{
  ℕ, ◌+◌, ◌%◌, ◌<◌, ◌≡◌, ◌⊎◌, refl, ap, sym, ◌∙◌, subst, Bool, true, false, not, [], ◌∷◌, ◌++◌,
  Option, none, some, ◌==◌, ==_refl, if◌then◌else◌, arith, inl, inr, Bool-cases, Option-cases,
}
use eacopy.Os.{Os}
use eacopy.Files.Directories.{ensure_directory}
use eacopy.Server.Sessions.{
  create_secret_file, secret_file_name, Sessions, count_of, raise_count, lower_count, erase,
  settle_by, Access, EnvironmentCommand, Shares, get_local_from_net, start_session, test_access,
  without_secret, admit, validated, without_file, environment, leave_session,
}

-- Every session has a connection, and not as many as the counter has room for.
abbrev pub AllCounted : Sessions → Type 0
AllCounted [] = Unit {0}
AllCounted ((g, n) ∷ sessions) = (0 < n) × (n < 4294967295) × AllCounted sessions

-- The end of a connection, once the counter is lowered.
abbrev settle : ℕ → Sessions → Sessions
settle guid sessions = settle_by (count_of guid sessions) guid sessions

cons_settle_by :
    (o : Option ℕ) (guid g n : ℕ) (sessions : Sessions)
    → (g == guid) ≡ false
    → settle_by o guid ((g, n) ∷ sessions) ≡ (g, n) ∷ settle_by o guid sessions
unfolding erase
cons_settle_by none guid g n sessions other = refl
cons_settle_by (some k) guid g n sessions other = elim (Bool-cases (k == 0)) [
  | inl z ↦ rw z (rw (erase, other) refl)
  | inr z ↦ rw z refl
]

settle_cons :
    (guid g n : ℕ) (sessions : Sessions)
    → (g == guid) ≡ false
    → settle guid ((g, n) ∷ sessions) ≡ (g, n) ∷ settle guid sessions
unfolding count_of
settle_cons guid g n sessions other =
    let miss : count_of guid ((g, n) ∷ sessions) ≡ count_of guid sessions =
      rw (count_of, other) refl in
    ap (λ o. settle_by o guid ((g, n) ∷ sessions)) miss
    ∙ cons_settle_by (count_of guid sessions) guid g n sessions other

settle_hit :
    (guid g n : ℕ) (sessions : Sessions)
    → (g == guid) ≡ true
    → settle guid ((g, n) ∷ sessions) ≡ (if n == 0 then sessions else (g, n) ∷ sessions)
unfolding count_of erase
settle_hit guid g n sessions same =
    let hit : count_of guid ((g, n) ∷ sessions) ≡ some n = rw (count_of, same) refl in
    let gone : erase guid ((g, n) ∷ sessions) ≡ sessions = rw (erase, same) refl in
    ap (λ o. settle_by o guid ((g, n) ∷ sessions)) hit
    ∙ ap (λ t. if n == 0 then t else (g, n) ∷ sessions) gone

raise_hit :
    (guid g n : ℕ) (sessions : Sessions)
    → (g == guid) ≡ true
    → lower_count guid (raise_count guid ((g, n) ∷ sessions))
      ≡ (g, ((n + 1) % 4294967296 + 4294967295) % 4294967296) ∷ sessions
unfolding lower_count raise_count
raise_hit guid g n sessions same =
    let raised : raise_count guid ((g, n) ∷ sessions) ≡ (g, (n + 1) % 4294967296) ∷ sessions =
      rw (raise_count, same) refl in
    ap (lower_count guid) raised ∙ rw (lower_count, same) refl

there_and_back : (n : ℕ) → n < 4294967295 → ((n + 1) % 4294967296 + 4294967295) % 4294967296 ≡ n
there_and_back n m = omega arith

settle-raise_count :
    (guid : ℕ) (sessions : Sessions)
    → AllCounted sessions
    → settle guid (lower_count guid (raise_count guid sessions)) ≡ sessions
unfolding count_of erase lower_count raise_count
settle-raise_count guid [] v =
    let lowered : lower_count guid ((guid, 1) ∷ []) ≡ (guid, 0) ∷ [] =
      rw (lower_count, ==_refl guid) refl in
    ap (settle guid) lowered ∙ settle_hit guid guid 0 [] (==_refl guid)
settle-raise_count guid ((g, n) ∷ sessions) (some_one, room, v) = elim (Bool-cases (g == guid)) [
  | inl same ↦
      let z : (n == 0) ≡ false = ground (arith, some_one) in
      ap (settle guid) (raise_hit guid g n sessions same)
      ∙ ap (λ k. settle guid ((g, k) ∷ sessions)) (there_and_back n room)
      ∙ settle_hit guid g n sessions same
      ∙ rw z refl
  | inr other ↦
      let raised : raise_count guid ((g, n) ∷ sessions) ≡ (g, n) ∷ raise_count guid sessions =
        rw (raise_count, other) refl in
      let step : lower_count guid ((g, n) ∷ raise_count guid sessions)
          ≡ (g, n) ∷ lower_count guid (raise_count guid sessions) =
        rw (lower_count, other) refl in
      ap (λ t. settle guid (lower_count guid t)) raised
      ∙ ap (settle guid) step
      ∙ settle_cons guid g n (lower_count guid (raise_count guid sessions)) other
      ∙ ap (◌∷◌ (g, n)) (settle-raise_count guid sessions v)
]

module _ (w : Os) (shares : Shares w) where
  -- A connection is in no session, or in that of its secret, counted once more than before.
  abbrev IsIn : Sessions → Access w.State → Type 0
  IsIn sessions a =
      ((a.sessions ≡ sessions) × (a.active_session ≡ none))
      ⊎ ((a.sessions ≡ raise_count a.secret_guid sessions)
          × (a.active_session ≡ some a.secret_guid))

  -- What a step leads to for a connection that has no session yet.
  abbrev Enters : (Access w.State → Bool × Access w.State) → Type 0
  Enters f = (a : Access w.State) → a.active_session ≡ none → IsIn a.sessions (f a).1

  if-IsIn :
      (b : Bool) (x y : Bool × Access w.State) (sessions : Sessions)
      → IsIn sessions x.1
      → IsIn sessions y.1
      → IsIn sessions (if b then x else y).1
  if-IsIn true x y sessions u v = u
  if-IsIn false x y sessions u v = v

  start_session-Enters : (file_guid : ℕ) → Enters (start_session w shares file_guid)
  unfolding start_session
  start_session-Enters file_guid a out = elim (Option-cases (count_of a.secret_guid a.sessions)) [
    | inl gone ↦ rw (start_session, gone) (inr (refl, refl))
    | inr (n, there) ↦ rw (start_session, there) (inl (refl, out))
  ]

  test_access-Enters : (file_guid : ℕ) → Enters (test_access w shares file_guid)
  unfolding test_access
  test_access-Enters file_guid a out =
      let path = a.server_path ++ secret_file_name w shares file_guid in
      let made = ensure_directory w a.server_path 0 false true a.os in
      let (created, s2) = create_secret_file w shares path a.secret_guid made.state in
      let now = record a { os = s2 } in
      if-IsIn (not made.usable) (false, record a { os = made.state })
        (without_file w shares path
          (if created then start_session w shares file_guid now else (false, now)))
        a.sessions (inl (refl, out))
        (if-IsIn created (start_session w shares file_guid now) (false, now) a.sessions
          (start_session-Enters file_guid now out) (inl (refl, out)))

  without_secret-Enters : Enters (without_secret w shares)
  unfolding without_secret
  without_secret-Enters a out = elim (Option-cases (shares.create_guid a.os).0) [
    | inl gone ↦ rw (without_secret, gone) (inl (refl, out))
    | inr (guid, made) ↦
        let s1 = (shares.create_guid a.os).1 in
        elim (Option-cases (shares.create_guid s1).0) [
          | inl gone ↦ rw (without_secret, made, gone) (inl (refl, out))
          | inr (secret, made') ↦
              let next = record a { secret_guid = secret; os = (shares.create_guid s1).1 } in
              let step : without_secret w shares a ≡ test_access w shares guid next =
                rw (without_secret, made, made') refl in
              subst (λ r. IsIn a.sessions r.1) (sym step) (test_access-Enters guid next out)
        ]
  ]

  admit-Enters : (use_security_file : Bool) → Enters (admit w shares use_security_file)
  unfolding admit
  admit-Enters false a out = inr (refl, refl)
  admit-Enters true a out = elim (Bool-cases (a.secret_guid == 0)) [
    | inl z ↦ rw (admit, z) (without_secret-Enters a out)
    | inr z ↦ elim (Option-cases (count_of a.secret_guid a.sessions)) [
      | inl gone ↦ rw (admit, z, gone) (inl (refl, out))
      | inr (n, there) ↦ rw (admit, z, there) (inr (refl, refl))
    ]
  ]

  validated-IsIn :
      (sessions : Sessions) (r : Bool × Access w.State)
      → IsIn sessions r.1
      → IsIn sessions (validated w shares r).1
  validated-IsIn sessions (true, a) v = v
  validated-IsIn sessions (false, a) v = v

  environment-IsIn :
      (use_security_file : Bool) (cmd : EnvironmentCommand)
      → Enters (environment w shares use_security_file cmd)
  unfolding environment
  environment-IsIn use_security_file cmd a out =
      elim (Option-cases (get_local_from_net shares.share_path cmd.net_directory)) [
        | inl gone ↦ rw (environment, gone) (inl (refl, out))
        | inr ((path, external), there) ↦
            let next = record a {
              secret_guid = cmd.cmd_secret_guid;
              server_path = path;
              is_server_path_external = external;
            } in
            let step : environment w shares use_security_file cmd a
                ≡ validated w shares (admit w shares use_security_file next) =
              rw (environment, there) refl in
            subst (λ r. IsIn a.sessions r.1) (sym step)
              (validated-IsIn a.sessions (admit w shares use_security_file next)
                (admit-Enters use_security_file next out))
      ]

  leave_session-IsIn :
      (sessions : Sessions) (a : Access w.State)
      → AllCounted sessions
      → IsIn sessions a
      → (leave_session w shares a).sessions ≡ sessions
  unfolding leave_session
  leave_session-IsIn sessions a v (inl (same, out)) = rw (leave_session, out) same
  leave_session-IsIn sessions a v (inr (raised, in')) =
      rw (leave_session, in')
        (ap (λ t. settle a.secret_guid (lower_count a.secret_guid t)) raised
          ∙ settle-raise_count a.secret_guid sessions v)

  -- A connection that is in no session yet sends Environment, and ends: however the command ended, and
  -- with or without the security file, the table of sessions is the same as before, when the sessions in
  -- it have as many connections as are counted, at least one and fewer than the counter has room for.
  pub leave_session-environment :
      (use_security_file : Bool) (cmd : EnvironmentCommand) (a : Access w.State)
      → a.active_session ≡ none
      → AllCounted a.sessions
      → (leave_session w shares (environment w shares use_security_file cmd a).1).sessions
        ≡ a.sessions
  leave_session-environment use_security_file cmd a out v =
      leave_session-IsIn a.sessions (environment w shares use_security_file cmd a).1 v
        (environment-IsIn use_security_file cmd a out)
