-- ===== src/Config/Laws.antt =====
-- Defaults and validation.
use neth.Base.{
  ℕ, ◌∙◌, zero, suc, ap, inl, inr, ◌⊎◌, ◌≤◌, ◌≡◌, ◌≢◌, ◌↔◌, refl, sym, Bool, true, false, ◌||◌,
  List, [], ◌∷◌, arith, bytes_key, ◌=?◌, Option, some, ok, err, >>=-eq-ok, or_err, or_err-eq-ok,
}
use neth.Base.Text.{Text, text}
use neth.Base.Int.{ℤ, pos, negsuc, below, above}
use neth.Config.{
  Config, ConfigError, port_out_of_range, key_required, cert_required, ca_required, read_failed,
  parse_failed, invalid, set_defaults, validate, load, append_if, or_default, or_default_int,
}

-- What `Validate` promises.
pub record IsValid (c : Config) : Type 0 where
  pub has_ca : c.pki.ca ≢ []
  pub has_cert : c.pki.cert ≢ []
  pub has_key : c.pki.key ≢ []
  pub port_in_range : (n : ℕ) × (c.listen.port ≡ pos n) × (1 ≤ n) × (n ≤ 65535)

append_if-empty :
    (test : Bool) (e : ConfigError) (errs : List ConfigError)
    → (append_if test e errs ≡ []) ↔ ((test ≡ false) × (errs ≡ []))
append_if-empty true e [] = (λ h. cc, λ h. cc)
append_if-empty true e (x ∷ errs) = (λ h. cc, λ h. cc)
append_if-empty false e errs = (λ h. (refl, h), λ h. h.1)

in_range :
    (p : ℤ) → (below p 1 || above p 65535 ≡ false) ↔ ((n : ℕ) × (p ≡ pos n) × (1 ≤ n) × (n ≤ 65535))
in_range (pos n) =
    (λ h. (n, refl, ground arith, ground arith), λ (m, same, low, high). ground arith)
in_range (negsuc n) = (λ h. cc, λ (m, same, low, high). cc)

nonempty : (s : Text) → (s =? [] ≡ false) ↔ (s ≢ [])
nonempty [] = (λ h. cc, λ h. absurd (h refl))
nonempty (x ∷ s) = (λ _ h. cc, λ _. refl)

-- `Validate` reports nothing exactly for the configurations with the three file names and a port
-- from 1 to 65535.
pub validate_iff : (c : Config) → (validate c ≡ []) ↔ IsValid c
unfolding validate
validate_iff c = (
  λ h.
      let (port, rest) = (append_if-empty _ (port_out_of_range c.listen.port) _).0 h in
      let (key, rest') = (append_if-empty _ key_required _).0 rest in
      let (cert, rest'') = (append_if-empty _ cert_required _).0 rest' in
      let (ca, _) = (append_if-empty _ ca_required []).0 rest'' in
      record {
        has_ca = (nonempty c.pki.ca).0 ca;
        has_cert = (nonempty c.pki.cert).0 cert;
        has_key = (nonempty c.pki.key).0 key;
        port_in_range = (in_range c.listen.port).0 port;
      },
  λ v. (append_if-empty _ _ _).1 (
    (in_range c.listen.port).1 v.port_in_range,
    (append_if-empty _ _ _).1 (
      (nonempty c.pki.key).1 v.has_key,
      (append_if-empty _ _ _).1 (
        (nonempty c.pki.cert).1 v.has_cert,
        (append_if-empty _ _ _).1 ((nonempty c.pki.ca).1 v.has_ca, refl),
      ),
    ),
  ),
)

-- A text that the file leaves out gets a default, and another is kept.
abbrev pub FilledText : Text → Text → Text → Type 0
FilledText given value result =
    ((given ≢ []) × (result ≡ given)) ⊎ ((given ≡ []) × (result ≡ value))

-- The same for a number, which is left out as zero.
abbrev pub FilledInt : ℤ → ℕ → ℤ → Type 0
FilledInt given value result =
    ((given ≢ pos 0) × (result ≡ given)) ⊎ ((given ≡ pos 0) × (result ≡ pos value))

-- A configuration `c` that completes the parsed file `p`, field by field.
pub record IsFilled (p c : Config) : Type 0 where
  pub host : FilledText p.listen.host (text "0.0.0.0") c.listen.host
  pub dev : FilledText p.tun.dev (text "neth0") c.tun.dev
  pub mtu : FilledInt p.tun.mtu 1300 c.tun.mtu
  pub interval : FilledInt p.lighthouse.interval 60 c.lighthouse.interval
  pub level : FilledText p.logging.level (text "info") c.logging.level
  pub format : FilledText p.logging.format (text "text") c.logging.format
  pub same_pki : c.pki ≡ p.pki
  pub same_port : c.listen.port ≡ p.listen.port
  pub same_am_lighthouse : c.lighthouse.am_lighthouse ≡ p.lighthouse.am_lighthouse
  pub same_hosts : c.lighthouse.hosts ≡ p.lighthouse.hosts
  pub same_static_host_map : c.static_host_map ≡ p.static_host_map
  pub same_punchy : c.punchy ≡ p.punchy
  pub same_firewall : c.firewall ≡ p.firewall

or_default_filled : (given value : Text) → FilledText given value (or_default value given)
or_default_filled [] value = inr (refl, refl)
or_default_filled (x ∷ given) value = inl (λ h. cc, refl)

filled_or_default :
    (given value result : Text) → FilledText given value result → result ≡ or_default value given
filled_or_default [] value result (inl (kept, same)) = absurd (kept refl)
filled_or_default [] value result (inr (_, same)) = same
filled_or_default (x ∷ given) value result (inl (_, same)) = same
filled_or_default (x ∷ given) value result (inr (empty, _)) = cc

or_default_int_filled : (given : ℤ) (value : ℕ) → FilledInt given value (or_default_int value given)
or_default_int_filled (pos zero) value = inr (refl, refl)
or_default_int_filled (pos (suc n)) value = inl (λ h. cc, ground arith)
or_default_int_filled (negsuc n) value = inl (λ h. cc, refl)

filled_or_default_int :
    (given : ℤ) (value : ℕ) (result : ℤ)
    → FilledInt given value result
    → result ≡ or_default_int value given
filled_or_default_int (pos zero) value result (inl (kept, same)) = absurd (kept refl)
filled_or_default_int (pos zero) value result (inr (_, same)) = same
filled_or_default_int (pos (suc n)) value result (inl (_, same)) = same ∙ ground arith
filled_or_default_int (pos (suc n)) value result (inr (empty, _)) = cc
filled_or_default_int (negsuc n) value result (inl (_, same)) = same
filled_or_default_int (negsuc n) value result (inr (empty, _)) = cc

set_defaults-IsFilled : (p : Config) → IsFilled p (set_defaults p)
unfolding set_defaults
set_defaults-IsFilled p = record {
  host = or_default_filled p.listen.host _;
  dev = or_default_filled p.tun.dev _;
  mtu = or_default_int_filled p.tun.mtu _;
  interval = or_default_int_filled p.lighthouse.interval _;
  level = or_default_filled p.logging.level _;
  format = or_default_filled p.logging.format _;
  same_pki = refl;
  same_port = refl;
  same_am_lighthouse = refl;
  same_hosts = refl;
  same_static_host_map = refl;
  same_punchy = refl;
  same_firewall = refl;
}

IsFilled-set_defaults : (p c : Config) → IsFilled p c → c ≡ set_defaults p
unfolding set_defaults
IsFilled-set_defaults p c f = λ i. record {
  pki = f.same_pki i;
  listen = record {
    host = filled_or_default p.listen.host _ c.listen.host f.host i;
    port = f.same_port i;
  };
  tun = record {
    dev = filled_or_default p.tun.dev _ c.tun.dev f.dev i;
    mtu = filled_or_default_int p.tun.mtu _ c.tun.mtu f.mtu i;
  };
  lighthouse = record {
    am_lighthouse = f.same_am_lighthouse i;
    interval = filled_or_default_int p.lighthouse.interval _ c.lighthouse.interval f.interval i;
    hosts = f.same_hosts i;
  };
  static_host_map = f.same_static_host_map i;
  punchy = f.same_punchy i;
  firewall = f.same_firewall i;
  logging = record {
    level = filled_or_default p.logging.level _ c.logging.level f.level i;
    format = filled_or_default p.logging.format _ c.logging.format f.format i;
  };
}

accepted :
    (errs : List ConfigError) (cfg c : Config)
    → elim errs [ [] ↦ ok cfg | e ∷ es ↦ err (invalid (e ∷ es)) ] ≡ ok c
    → (errs ≡ []) × (cfg ≡ c)
accepted [] cfg c h = (refl, cc)
accepted (e ∷ es) cfg c h = cc

accepted_lem :
    (errs : List ConfigError) (cfg : Config)
    → errs ≡ []
    → elim errs [ [] ↦ ok cfg | e ∷ es ↦ err (invalid (e ∷ es)) ] ≡ ok cfg
accepted_lem [] cfg h = refl
accepted_lem (e ∷ es) cfg h = cc

module _ (read_file : Text → Option Text) (unmarshal : Text → Option Config) where
  -- The file that a configuration is loaded from, and what it holds.
  pub record IsLoadedFrom (path : Text) (c : Config) : Type 0 where
    pub content : Text
    pub parsed : Config
    pub is_read : read_file path ≡ some content
    pub is_parsed : unmarshal content ≡ some parsed
    pub is_filled : IsFilled parsed c
    pub is_valid : IsValid c

  load-ok : (path : Text) (c : Config) → load read_file unmarshal path ≡ ok c → IsLoadedFrom path c
  unfolding load
  load-ok path c e =
      let (content, read, e') = >>=-eq-ok (or_err (read_file path) (read_failed path)) _ e in
      let (parsed, parses, e'') = >>=-eq-ok (or_err (unmarshal content) (parse_failed path)) _ e' in
      let (none_left, same) =
        accepted (validate (set_defaults parsed)) (set_defaults parsed) c e'' in
      record {
        content = content;
        parsed = parsed;
        is_read = or_err-eq-ok (read_file path) (read_failed path) read;
        is_parsed = or_err-eq-ok (unmarshal content) (parse_failed path) parses;
        is_filled = rw same at (set_defaults-IsFilled parsed);
        is_valid = rw same at ((validate_iff (set_defaults parsed)).0 none_left);
      }

  -- `Load` gives a configuration exactly when the file can be read and parsed, the configuration is
  -- the parsed one with each missing host, device, MTU, interval, level and format replaced by
  -- 0.0.0.0, neth0, 1300, 60, info and text and every other field kept, and it names the three PKI
  -- files and a port from 1 to 65535.
  pub load_iff :
      (path : Text) (c : Config) → (load read_file unmarshal path ≡ ok c) ↔ IsLoadedFrom path c
  unfolding load
  load_iff path c = (
    load-ok path c,
    λ l.
        let filled = IsFilled-set_defaults l.parsed c l.is_filled in
        let none_left : validate (set_defaults l.parsed) ≡ [] =
          rw (sym filled) ((validate_iff c).1 l.is_valid) in
        rw l.is_read
          (rw l.is_parsed (accepted_lem _ (set_defaults l.parsed) none_left ∙ ap ok (sym filled))),
  )
