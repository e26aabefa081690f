-- ===== src/Config/Tokens.antt =====
-- internal/backup/config.go: what a configuration that loads holds.
use backup_git_repos.Base.{
  Text, text, false, List, [], ◌∷◌, ◌++◌, ◌↔◌, ◌≡◌, refl, ap, sym, ◌∙◌, subst, Option, some, true,
  arith, inl, inr, ◌≢◌, ◌⊎◌, none, list_beq_iff, list_eq, nat_eq, list_beq, cut_suffix,
  cut_suffix-append, cut_suffix-eq-some, Option-cases, Bool-cases,
}
use backup_git_repos.Error.{Result, ok, err, Err}
use backup_git_repos.Error.Steps
use backup_git_repos.Error.Steps.{Result-cases, ok-injective}
use backup_git_repos.World.{Env}
use backup_git_repos.Config.{
  ForgeConfig, Config, known_forge_kind, resolve_token, resolve_forge, lookup_env, is_set,
  run_token_command, trim_newline, resolve_forges, decode_config,
}

-- What a command printed, less one newline at its end.
pub data IsTrimmed : Text → Text → Type 0 where
  newline : (token : Text) → IsTrimmed (token ++ 10 ∷ []) token
  no_newline : (out : Text) → ((s : Text) → out ≢ s ++ 10 ∷ []) → IsTrimmed out out

-- Where the token of an entry comes from: its command, before all else; or its literal or its
-- variable, where there are not both.
pub data HasToken (env : Env) (f : ForgeConfig) (token : Text) : Type 0 where
  by_command :
      (out : Text)
      → f.token_command ≢ []
      → env.shell f.token_command ≡ some out
      → IsTrimmed out token
      → HasToken env f token
  by_literal :
      f.token_command ≡ []
      → f.token_env ≡ []
      → f.token_literal ≢ []
      → token ≡ f.token_literal
      → HasToken env f token
  by_variable :
      f.token_command ≡ []
      → f.token_literal ≡ []
      → lookup_env f.token_env env.variables ≡ some token
      → HasToken env f token

abbrev pub IsKnown : Text → Type 0
IsKnown kind = (kind ≡ text "forgejo") ⊎ ((kind ≡ text "gitlab") ⊎ (kind ≡ text "github"))

-- A loaded entry: its kind is known, and its token is its own; nothing else changed.
pub record IsResolved (env : Env) (f g : ForgeConfig) : Type 0 where
  pub known : IsKnown f.kind
  pub resolved : HasToken env f g.token
  pub unchanged : g ≡ record f { token = g.token }

abbrev pub AllResolved : Env → List ForgeConfig → List ForgeConfig → Type 0
AllResolved env [] [] = Unit
AllResolved env [] (g ∷ gs) = ⊥
AllResolved env (f ∷ fs) [] = ⊥
AllResolved env (f ∷ fs) (g ∷ gs) = IsResolved env f g × AllResolved env fs gs

known_forge_kind-IsKnown : (kind : Text) → (known_forge_kind kind ≡ true) ↔ IsKnown kind
unfolding known_forge_kind
known_forge_kind-IsKnown kind = ground (
  arith,
  list_beq_iff kind (text "forgejo"),
  list_beq_iff kind (text "gitlab"),
  list_beq_iff kind (text "github"),
)

trim_newline-cut : (out r : Text) → cut_suffix out (10 ∷ []) ≡ some r → trim_newline out ≡ r
unfolding trim_newline
trim_newline-cut out r h = rw (trim_newline, h) refl

trim_newline-uncut : (out : Text) → cut_suffix out (10 ∷ []) ≡ none → trim_newline out ≡ out
unfolding trim_newline
trim_newline-uncut out h = rw (trim_newline, h) refl

trim_newline-IsTrimmed : (out : Text) → IsTrimmed out (trim_newline out)
trim_newline-IsTrimmed out = elim (Option-cases (cut_suffix out (10 ∷ []))) [
  | inl e ↦ subst (IsTrimmed out) (sym (trim_newline-uncut out e)) (
      no_newline out
        λ s h. cc (e, ap (λ t. cut_suffix t (10 ∷ [])) h, cut_suffix-append s (10 ∷ [])))
  | inr (r, e) ↦
      subst (IsTrimmed out) (sym (trim_newline-cut out r e))
        (subst (λ (t : Text). IsTrimmed t r) (sym (cut_suffix-eq-some out (10 ∷ []) e)) (newline r))
]

IsTrimmed-trim_newline : (out token : Text) → IsTrimmed out token → trim_newline out ≡ token
IsTrimmed-trim_newline _ _ (newline token) =
    trim_newline-cut (token ++ 10 ∷ []) token (cut_suffix-append token (10 ∷ []))
IsTrimmed-trim_newline _ _ (no_newline out none_ends) =
    elim (Option-cases (cut_suffix out (10 ∷ []))) [
      | inl e ↦ trim_newline-uncut out e
      | inr (r, e) ↦ absurd (none_ends r (cut_suffix-eq-some out (10 ∷ []) e))
    ]

is_set_cases : (s : Text) → ((s ≡ []) × (is_set s ≡ false)) ⊎ ((s ≢ []) × (is_set s ≡ true))
unfolding is_set list_beq
is_set_cases [] = inl (refl, refl)
is_set_cases (x ∷ s) = inr ((λ h. cc h), refl)

set-is_set : (s : Text) → s ≢ [] → is_set s ≡ true
set-is_set s h = elim (is_set_cases s) [ inl (e, q) ↦ absurd (h e) | inr (e, q) ↦ q ]

unset-is_set : (s : Text) → s ≡ [] → is_set s ≡ false
unset-is_set s h = elim (is_set_cases s) [ inl (e, q) ↦ q | inr (e, q) ↦ absurd (e h) ]

run_token_command-ran :
    (env : Env) (command out : Text)
    → env.shell command ≡ some out
    → run_token_command env command ≡ ok (trim_newline out)
unfolding run_token_command
run_token_command-ran env command out h = rw (run_token_command, h) refl

run_token_command-HasToken :
    (env : Env) (f : ForgeConfig) (token : Text)
    → f.token_command ≢ []
    → run_token_command env f.token_command ≡ ok token
    → HasToken env f token
unfolding run_token_command
run_token_command-HasToken env f token some_command h =
    elim (Option-cases (env.shell f.token_command)) [
      | inl q ↦ cc (rw (run_token_command, q) at h)
      | inr (out, q) ↦ by_command out some_command q (
          subst (IsTrimmed out)
            (ok-injective (trim_newline out) token (rw (run_token_command, q) at h))
            (trim_newline-IsTrimmed out))
    ]

resolve_token-HasToken :
    (env : Env) (f : ForgeConfig) (token : Text)
    → resolve_token env f ≡ ok token
    → HasToken env f token
unfolding resolve_token
resolve_token-HasToken env f token h = elim (is_set_cases f.token_command) [
  | inr (some_command, c) ↦ run_token_command-HasToken env f token some_command (rw c at h)
  | inl (no_command, c) ↦ elim (is_set_cases f.token_literal) [
    | inr (some_literal, l) ↦ elim (is_set_cases f.token_env) [
      | inr (some_env, v) ↦ cc (rw (c, l, v) at h)
      | inl (no_env, v) ↦
          by_literal no_command no_env some_literal
            (sym (ok-injective f.token_literal token (rw (c, l, v) at h)))
    ]
    | inl (no_literal, l) ↦ elim (Option-cases (lookup_env f.token_env env.variables)) [
      | inl q ↦ cc (rw (c, l, q) at h)
      | inr (found, q) ↦
          by_variable no_command no_literal
            (q ∙ ap some (ok-injective found token (rw (c, l, q) at h)))
    ]
  ]
]

HasToken-resolve_token :
    (env : Env) (f : ForgeConfig) (token : Text)
    → HasToken env f token
    → resolve_token env f ≡ ok token
unfolding resolve_token
HasToken-resolve_token env f token (by_command out some_command ran trimmed) =
    rw (set-is_set f.token_command some_command) (
      run_token_command-ran env f.token_command out ran
      ∙ ap ok (IsTrimmed-trim_newline out token trimmed))
HasToken-resolve_token env f token (by_literal no_command no_env some_literal same) =
    rw
      (
        unset-is_set f.token_command no_command,
        set-is_set f.token_literal some_literal,
        unset-is_set f.token_env no_env,
      )
      (ap ok (sym same))
HasToken-resolve_token env f token (by_variable no_command no_literal found) =
    rw (unset-is_set f.token_command no_command, unset-is_set f.token_literal no_literal, found)
      refl

resolve_forge-IsResolved :
    (env : Env) (f g : ForgeConfig) → resolve_forge env f ≡ ok g → IsResolved env f g
unfolding resolve_forge
resolve_forge-IsResolved env f g h = elim (Bool-cases (known_forge_kind f.kind)) [
  | inl k ↦ elim (Result-cases (resolve_token env f)) [
    | inr (e, q) ↦ cc (rw (k, q) at h)
    | inl (token, q) ↦
        let same : record f { token = token } ≡ g = ok-injective _ g (rw (k, q) at h) in
        subst (IsResolved env f) same (record {
          known = (known_forge_kind-IsKnown f.kind).0 k;
          resolved = resolve_token-HasToken env f token q;
          unchanged = refl;
        })
  ]
  | inr k ↦ cc (rw k at h)
]

resolve_forge-eq-ok :
    (env : Env) (f g : ForgeConfig) → IsResolved env f g → resolve_forge env f ≡ ok g
unfolding resolve_forge
resolve_forge-eq-ok env f g r =
    rw
      ((known_forge_kind-IsKnown f.kind).1 r.known, HasToken-resolve_token env f g.token r.resolved)
      (ap ok (sym r.unchanged))

resolve_forges-AllResolved :
    (env : Env) (fs gs : List ForgeConfig) → resolve_forges env fs ≡ ok gs → AllResolved env fs gs
unfolding resolve_forges
resolve_forges-AllResolved env [] [] h = tt
resolve_forges-AllResolved env [] (g ∷ gs) h = cc h
resolve_forges-AllResolved env (f ∷ fs) gs h = elim (Result-cases (resolve_forge env f)) [
  | inr (e, q) ↦ cc (rw q at h)
  | inl (g, q) ↦ elim (Result-cases (resolve_forges env fs)) [
    | inr (e, r) ↦ cc (rw (q, r) at h)
    | inl (rest, r) ↦
        subst (AllResolved env (f ∷ fs)) (ok-injective (g ∷ rest) gs (rw (q, r) at h))
          (resolve_forge-IsResolved env f g q, resolve_forges-AllResolved env fs rest r)
  ]
]

resolve_forges-eq-ok :
    (env : Env) (fs gs : List ForgeConfig) → AllResolved env fs gs → resolve_forges env fs ≡ ok gs
unfolding resolve_forges
resolve_forges-eq-ok env [] [] h = refl
resolve_forges-eq-ok env [] (g ∷ gs) h = absurd h
resolve_forges-eq-ok env (f ∷ fs) [] h = absurd h
resolve_forges-eq-ok env (f ∷ fs) (g ∷ gs) h =
    rw (resolve_forge-eq-ok env f g h.0, resolve_forges-eq-ok env fs gs h.1)

first_error :
    (env : Env) (before after gs : List ForgeConfig) (f : ForgeConfig) (e : Err)
    → AllResolved env before gs
    → resolve_forge env f ≡ err e
    → resolve_forges env (before ++ f ∷ after) ≡ err e
unfolding resolve_forges
first_error env [] after [] f e h k = rw k
first_error env [] after (g ∷ gs) f e h k = absurd h
first_error env (b ∷ before) after [] f e h k = absurd h
first_error env (b ∷ before) after (g ∷ gs) f e h k =
    rw (resolve_forge-eq-ok env b g h.0, first_error env before after gs f e h.1 k)

module _ (decode : Text → Option Config) where
  decoded : Env → Config → Result Config
  decoded env raw =
      Steps.◌>>=◌ (resolve_forges env raw.forges) λ forges. ok (record raw { forges = forges })

  decode_config-eq :
      (env : Env) (bytes : Text) (raw : Config)
      → decode bytes ≡ some raw
      → decode_config decode env bytes ≡ decoded env raw
  unfolding decode_config decoded
  decode_config-eq env bytes raw d = rw (d, decode_config)

  decoded-AllResolved :
      (env : Env) (raw cfg : Config)
      → decoded env raw ≡ ok cfg
      → AllResolved env raw.forges cfg.forges × (cfg.dest ≡ raw.dest)
  unfolding decoded
  decoded-AllResolved env raw cfg h = elim (Result-cases (resolve_forges env raw.forges)) [
    | inr (e, q) ↦ cc (rw q at h)
    | inl (gs, q) ↦
        let same : record raw { forges = gs } ≡ cfg = ok-injective _ cfg (rw q at h) in
        (
          subst (λ (c : Config). AllResolved env raw.forges c.forges) same
              (resolve_forges-AllResolved env raw.forges gs q),
          sym (ap (λ (c : Config). c.dest) same),
        )
  ]

  -- A file that can be read and decoded loads exactly when each of its forges has a known kind and a
  -- token: that of its command, which wins over all else, less one newline at its end; or else that
  -- of its literal or of its variable, of which not both are given. The tokens are then filled in, and
  -- nothing else is changed.
  pub decode_config_iff :
      (env : Env) (bytes : Text) (raw cfg : Config)
      → decode bytes ≡ some raw
      → (decode_config decode env bytes ≡ ok cfg)
        ↔ (AllResolved env raw.forges cfg.forges × (cfg.dest ≡ raw.dest))
  unfolding decoded
  decode_config_iff env bytes raw cfg d = (
    λ h. decoded-AllResolved env raw cfg (sym (decode_config-eq env bytes raw d) ∙ h),
    λ h.
        decode_config-eq env bytes raw d
        ∙ rw (resolve_forges-eq-ok env raw.forges cfg.forges h.0)
            (ap ok (λ i. record { dest = sym h.1 i; forges = cfg.forges })),
  )

  -- The first forge that is refused decides the error, whatever stands behind it.
  pub decode_config_first_error :
      (env : Env) (bytes : Text) (raw : Config) (before after gs : List ForgeConfig)
      (f : ForgeConfig) (e : Err)
      → decode bytes ≡ some raw
      → raw.forges ≡ before ++ f ∷ after
      → AllResolved env before gs
      → resolve_forge env f ≡ err e
      → decode_config decode env bytes ≡ err e
  unfolding decoded
  decode_config_first_error env bytes raw before after gs f e d split ok_before h =
      decode_config-eq env bytes raw d
      ∙ rw (split, decoded) (rw (first_error env before after gs f e ok_before h))
