-- ===== src/Agent/Command/Injection.antt =====
-- What a manifest can put into the arguments of a client.
use thin_pi.Prelude.{
  ℕ, zero, suc, ◌+◌, ◌/◌, ◌%◌, ◌≡◌, refl, inl, inr, Bool, true, false, not, some, List, [], ◌∷◌,
  ◌++◌, arith, ltb, Bool-cases, Option-cases, &&_left, is_nil, any, All, Bytes, bytes,
  contains_byte, contains_any, ok,
}
use thin_pi.Db.{Manifest}
use thin_pi.Store.Users.{is_alnum, every}
use thin_pi.Agent.Command.{
  Command, check, digits, itoa, is_host_byte, safe_host, validate_host, bracketed, join_host_port,
  when, new_lines,
}
use thin_pi.Agent.Command.Build.{
  Host, RdpConfig, home_of, decoded, rdp_defaults, certificate_arg, rdp_args, join_lines,
  rdp_finish, rdp_command, free_rdp_command,
}

-- A text without a line break.
abbrev pub OneLine : Bytes → Type 0
OneLine s = contains_any new_lines s ≡ false

append-OneLine : (s t : Bytes) → OneLine s → OneLine t → OneLine (s ++ t)
unfolding contains_any any
append-OneLine [] t h k = k
append-OneLine (c ∷ s) t h k = ground (arith, append-OneLine s t)

digits-OneLine : (k n : ℕ) → OneLine (digits k n)
unfolding digits contains_any contains_byte any
digits-OneLine zero n = refl
digits-OneLine (suc k) n = elim (Bool-cases (ltb n 10)) [
  | inl small ↦ rw small (ground arith)
  | inr large ↦ rw large (
      append-OneLine (digits k (n / 10)) ((b'0' + n % 10) ∷ []) (digits-OneLine k (n / 10))
        (ground arith))
]

host-OneLine : (s : Bytes) → every is_host_byte s ≡ true → OneLine s
unfolding every is_host_byte is_alnum contains_any contains_byte any
host-OneLine [] h = refl
host-OneLine (c ∷ s) h = ground (arith, host-OneLine s)

safe_host-OneLine : (s : Bytes) → safe_host s ≡ true → OneLine s
unfolding safe_host is_alnum contains_any contains_byte any
safe_host-OneLine [] h = refl
safe_host-OneLine (c ∷ s) h = ground (arith, host-OneLine s)

bracketed-OneLine : (s : Bytes) → OneLine s → OneLine (bracketed s)
unfolding bracketed
bracketed-OneLine s h = elim (Bool-cases (contains_byte b':' s)) [
  | inl colon ↦
      rw colon
        (unfold contains_any contains_byte any in ground (arith, append-OneLine s (b']' ∷ []) h))
  | inr plain ↦ rw plain h
]

when-OneLine :
    (b : Bool) (s : Bytes) (rest : List Bytes)
    → (b ≡ true → OneLine s)
    → All OneLine rest
    → All OneLine (when b s ++ rest)
when-OneLine true s rest h k = (h refl, k)
when-OneLine false s rest h k = k

certificate_arg-OneLine : (mode c : Bytes) → certificate_arg mode ≡ some c → OneLine c
unfolding certificate_arg contains_any contains_byte any
certificate_arg-OneLine mode c h = ground arith

target-OneLine :
    (host : Bytes) (port : ℕ) → validate_host host port ≡ true → OneLine (join_host_port host port)
unfolding validate_host join_host_port itoa contains_any contains_byte any
target-OneLine host port h =
    append-OneLine (bracketed host) (b':' ∷ itoa port)
      (bracketed-OneLine host (safe_host-OneLine host (&&_left (safe_host host) _ h)))
      (append-OneLine (b':' ∷ []) (digits 20 port) refl (digits-OneLine 20 port))

rdp_args-OneLine :
    (h : Host) (x : Manifest) (cfg : RdpConfig) (certificate : Bytes)
    → validate_host x.host x.port ≡ true
    → OneLine x.username
    → OneLine x.password
    → (cfg.drives ≡ true → OneLine (home_of h))
    → OneLine cfg.certificate_name
    → OneLine certificate
    → All OneLine (rdp_args h x cfg certificate)
unfolding rdp_args contains_any contains_byte any
rdp_args-OneLine h x cfg certificate host user password home name cert = (
  append-OneLine (bytes "/v:") (join_host_port x.host x.port) refl
      (target-OneLine x.host x.port host),
  when-OneLine (not (is_nil x.username)) _ _
      (λ _. append-OneLine (bytes "/u:") x.username refl user)
      (when-OneLine (not (is_nil x.password)) _ _
        (λ _. append-OneLine (bytes "/p:") x.password refl password)
        (when-OneLine cfg.fullscreen _ _ (λ _. refl)
          (when-OneLine cfg.dynamic_resolution _ _ (λ _. refl)
            (when-OneLine cfg.audio _ _ (λ _. refl)
              (when-OneLine cfg.microphone _ _ (λ _. refl)
                (
                  refl,
                  when-OneLine cfg.drives _ _
                      (λ on. append-OneLine (bytes "/drive:home,") (home_of h) refl (home on))
                      (when-OneLine cfg.printers _ _ (λ _. refl)
                        (when-OneLine cfg.smartcards _ _ (λ _. refl)
                          (when-OneLine cfg.auto_reconnect _ _ (λ _. refl)
                            (when-OneLine (not (is_nil cfg.certificate_name)) _ _
                              (λ _.
                                append-OneLine (bytes "/cert-name:") cfg.certificate_name refl name)
                              (cert, tt))))),
                )))))),
)

name-OneLine : (s : Bytes) → contains_any (13 ∷ 10 ∷ b'/' ∷ []) s ≡ false → OneLine s
unfolding contains_any contains_byte any
name-OneLine [] h = refl
name-OneLine (c ∷ s) h = ground (arith, name-OneLine s)

-- A command for FreeRDP hands its arguments over on the standard input, one in a line: no value of
-- the manifest, the configuration or the environment adds a line, and so an argument, of its own.
-- The command line is `/args-from:stdin` alone, and the environment is untouched.
pub free_rdp_command_lines :
    (binary : Bytes) (h : Host) (x : Manifest) (c : Command)
    → free_rdp_command binary h x ≡ ok c
    → (cfg : RdpConfig) × (certificate : Bytes) × (decoded h.decode_rdp rdp_defaults x.config
        ≡ some cfg)
      × (c.stdin ≡ join_lines (rdp_args h x cfg certificate))
      × All OneLine (rdp_args h x cfg certificate)
      × (c.args ≡ bytes "/args-from:stdin" ∷ [])
      × (c.env ≡ [])
unfolding free_rdp_command rdp_command rdp_finish check
free_rdp_command_lines binary h x c built =
    elim (Option-cases (decoded h.decode_rdp rdp_defaults x.config)) [
      | inl broken ↦ absurd (ground arith)
      | inr (cfg, read) ↦ elim (Option-cases (certificate_arg cfg.certificate_mode)) [
        | inl unknown ↦ absurd (ground arith)
        | inr (certificate, known) ↦ (
          cfg,
          certificate,
          read,
          ground arith,
          rdp_args-OneLine h x cfg certificate (ground arith) (ground arith) (ground arith)
              (λ on. ground arith) (name-OneLine cfg.certificate_name (ground arith))
              (certificate_arg-OneLine cfg.certificate_mode certificate known),
          ground arith,
          ground arith,
        )
      ]
    ]
