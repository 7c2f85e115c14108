-- ===== src/Agent/Command/Secrecy.antt =====
-- The secret of a connection never stands on a command line, which every process can read.
use thin_pi.Prelude.{
  ◌≡◌, inl, inr, none, arith, str_eq, if◌then◌else◌, Bool-cases, Option-cases, is_nil, Bytes, ok,
}
use thin_pi.Db.{Manifest}
use thin_pi.Agent.Command.{Command, check}
use thin_pi.Agent.Command.Build.{
  Host, decoded, rdp_defaults, rdp_finish, rdp_command, free_rdp_command, certificate_arg,
}
use thin_pi.Agent.Command.Streams.{
  vnc_defaults, moonlight_defaults, vnc_args, vnc_command, tiger_vnc_command, moonlight_args,
  moonlight_finish, moonlight_checked, moonlight_command, codec_value,
}
use thin_pi.Agent.Command.Ssh.{
  Clients, ssh_args, child, ssh_finish, ssh_titled, title_of, ssh_command, command_for, colours,
}

module _ (h : Host) (x : Manifest) (p : Bytes) (c c' : Command) where
  abbrev other : Manifest
  other = record x { password = p }

  rdp_hides :
      (binary : Bytes)
      → free_rdp_command binary h x ≡ ok c
      → free_rdp_command binary h other ≡ ok c'
      → (c.path ≡ c'.path) × (c.args ≡ c'.args)
  unfolding free_rdp_command rdp_command rdp_finish check
  rdp_hides binary built built' = elim (Option-cases (decoded h.decode_rdp rdp_defaults x.config)) [
    | inl broken ↦ absurd (ground arith)
    | inr (cfg, read) ↦ elim (Option-cases (certificate_arg cfg.certificate_mode)) [
      | inl unknown ↦ absurd (ground arith)
      | inr (certificate, known) ↦ (ground arith, ground arith)
    ]
  ]

  vnc_hides :
      (binary : Bytes)
      → tiger_vnc_command binary h x ≡ ok c
      → tiger_vnc_command binary h other ≡ ok c'
      → (c.path ≡ c'.path) × (c.args ≡ c'.args)
  unfolding tiger_vnc_command vnc_command check vnc_args
  vnc_hides binary built built' = elim (Option-cases (decoded h.decode_vnc vnc_defaults x.config)) [
    | inl broken ↦ absurd (ground arith)
    | inr (cfg, read) ↦ (ground arith, ground arith)
  ]

  moonlight_hides :
      (binary : Bytes)
      → moonlight_command binary h x ≡ ok c
      → moonlight_command binary h other ≡ ok c'
      → (c.path ≡ c'.path) × (c.args ≡ c'.args)
  unfolding moonlight_command moonlight_checked moonlight_finish check moonlight_args
  moonlight_hides binary built built' =
      elim (Option-cases (decoded h.decode_moonlight moonlight_defaults x.config)) [
        | inl broken ↦ absurd (ground arith)
        | inr (cfg, read) ↦ elim (Option-cases (codec_value cfg.codec)) [
          | inl unknown ↦ absurd (ground arith)
          | inr (codec, known) ↦ (ground arith, ground arith)
        ]
      ]

  ssh_hides :
      (terminal ssh sshpass : Bytes)
      → is_nil x.password ≡ is_nil p
      → ssh_command terminal ssh sshpass h x ≡ ok c
      → ssh_command terminal ssh sshpass h other ≡ ok c'
      → (c.path ≡ c'.path) × (c.args ≡ c'.args)
  unfolding ssh_command ssh_titled ssh_finish check ssh_args child title_of
  ssh_hides terminal ssh sshpass both built built' =
      elim (Option-cases (if is_nil x.config then none else h.decode_ssh x.config)) [
        | inl broken ↦ absurd (ground arith)
        | inr (title, read) ↦ elim (Option-cases (colours x.terminal_theme)) [
          | inl unknown ↦ absurd (ground arith)
          | inr (pair, known) ↦ (ground arith, ground arith)
        ]
      ]

-- Two launches that differ in the password alone, and both have one or both have none, start the
-- same program with the same arguments, whatever the protocol: no password shows in an argument.
pub command_for_hides_password :
    (clients : Clients) (h : Host) (x : Manifest) (p : Bytes) (c c' : Command)
    → is_nil x.password ≡ is_nil p
    → command_for clients h x ≡ ok c
    → command_for clients h (record x { password = p }) ≡ ok c'
    → (c.path ≡ c'.path) × (c.args ≡ c'.args)
command_for_hides_password clients h x p c c' both built built' =
    elim (Bool-cases (str_eq x.protocol "rdp")) [
      | inl is_rdp ↦
          rdp_hides h x p c c' clients.free_rdp.binary (unfold command_for check in ground arith)
            (unfold command_for check in ground arith)
      | inr not_rdp ↦ elim (Bool-cases (str_eq x.protocol "moonlight")) [
        | inl is_moonlight ↦
            moonlight_hides h x p c c' clients.moonlight.binary
              (unfold command_for check in ground arith) (unfold command_for check in ground arith)
        | inr not_moonlight ↦ elim (Bool-cases (str_eq x.protocol "vnc")) [
          | inl is_vnc ↦
              vnc_hides h x p c c' clients.vnc.binary (unfold command_for check in ground arith)
                (unfold command_for check in ground arith)
          | inr not_vnc ↦
              ssh_hides h x p c c' clients.terminal.binary clients.ssh.binary
                clients.ssh_pass.binary both (unfold command_for check in ground arith)
                (unfold command_for check in ground arith)
        ]
      ]
    ]
