-- ===== src/Web/Validate/Hosts.antt =====
-- The controller's check of a host and the agent's.
use thin_pi.Prelude.{
  ℕ, ◌≡◌, refl, false, not, ◌||◌, [], ◌∷◌, arith, ltb, if◌then◌else◌, length, is_nil, Bytes,
  trim_space,
}
use thin_pi.Store.Users.{every, is_alnum}
use thin_pi.Agent.Command.{is_host_byte, safe_host}
use thin_pi.Web.Validate.{valid_host, starts_alpha_num, ascii_alpha_num, host_bytes}

-- The controller's letters and digits are the agent's.
same_class : (c : ℕ) → ascii_alpha_num c ≡ is_alnum c
unfolding ascii_alpha_num is_alnum
same_class c = ground arith

same_bytes : (s : Bytes) → host_bytes s ≡ every is_host_byte s
unfolding host_bytes every is_host_byte
same_bytes [] = refl
same_bytes (c ∷ s) = rw (same_class c, same_bytes s) (ground arith)

same_test :
    (t : Bytes)
    → (if is_nil t || (ltb 253 (length t) || not (starts_alpha_num t)) then false else host_bytes t)
      ≡ safe_host t
unfolding safe_host host_bytes
same_test [] = refl
same_test (c ∷ s) =
    rw (same_bytes (c ∷ s), same_class c) (unfold every is_host_byte in ground arith)

-- The controller accepts a host exactly if the agent accepts the host without the space around it:
-- the two checks, a loop here and a regular expression there, differ in that alone.
pub valid_host-safe_host : (h : Bytes) → valid_host h ≡ safe_host (trim_space h)
unfolding valid_host
valid_host-safe_host h = same_test (trim_space h)
