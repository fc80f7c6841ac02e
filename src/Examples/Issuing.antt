-- ===== src/Examples/Issuing.antt =====
-- Certificates, keys and the start of a node at concrete inputs.
use neth.Base.{
  ℕ, ◌≡◌, refl, sym, ap, subst, ◌∙◌, ◌≢◌, arith, Bool, true, false, not, ◌&&◌, List, [], ◌∷◌, ◌++◌,
  Option, none, some, replicate, if◌then◌else◌, ◌=?◌, bytes_key, =?_refl, same_bytes_iff,
  Bool-cases, inl, inr,
}
use neth.Base.Assoc.{Assoc, lookup, insert, lookup-insert}
use neth.Base.Text.{Text, text}
use neth.Net.{ip4, Prefix}
use neth.Files.{FileSystem, KeepsFiles}
use neth.Cert.{
  Extension, X509, Certificate, ed25519_key, oid_vpn_ip, oid_curve25519_key, RoundTrips,
}
use neth.Cert as Certs
use neth.Cert.Keys.{Curve, Signatures}
use neth.Cert.Issue.{Template, Parent, Issuer}
use neth.Cert.Chain.{IssuesChains}
use neth.Examples.Instances.{plain_library, plain_library-RoundTrips, node_x509}

-- The file system: the last write to a path counts.
abbrev pub files : FileSystem
files = record {
  State = Assoc Text (List ℕ);
  read = λ s path. lookup path s;
  write = λ s path body mode. (insert path body s, true);
  join = λ dir base. dir ++ (text "/" ++ base);
  same_file = λ a b. a =? b;
}

pub files-KeepsFiles : KeepsFiles files
files-KeepsFiles = record {
  same_file_refl = λ path. =?_refl path;
  read-write = λ s path other body mode h. lookup-insert path other body s;
}

abbrev pub curve : Curve
curve = record { x25519 = λ k base. some k; basepoint = [] }

abbrev pub signatures : Signatures
signatures = record {
  PrivateKey = List ℕ;
  new_key = λ seed. seed;
  public_of = λ k. k;
  marshal_pkcs8 = λ k. some k;
  parse_pkcs8 = λ der. some (some der);
}

-- 10.0.0.1/24
abbrev pub vpn_ip : Prefix
vpn_ip = record { addr = ip4 167772161; bits = some 24 }

-- The scalar that is clamped from 32 bytes of 9.
abbrev pub node_key : List ℕ
node_key = 8 ∷ (replicate 30 9 ++ (73 ∷ []))

abbrev extras : List Extension
extras =
    record { id = oid_vpn_ip; value = 0 ∷ 24 ∷ 10 ∷ 0 ∷ 0 ∷ 1 ∷ [] }
    ∷ record { id = oid_curve25519_key; value = node_key }
    ∷ []

abbrev pub issued_x509 : X509
issued_x509 = record node_x509 { extensions = extras; public_key = ed25519_key (5 ∷ []) }

abbrev pub ca_x509 : X509
ca_x509 = record node_x509 { is_ca = true; public_key = ed25519_key (1 ∷ []); key_usage = 96 }

-- Two certificates are known by their DER bytes.
abbrev read_der : List ℕ → Option X509
read_der der =
    if der =? (7 ∷ []) then some issued_x509 else if der =? (8 ∷ []) then some ca_x509 else none

abbrev pub library : Certs.Library
library = record plain_library { parse_certificate = read_der }

pub library-RoundTrips : RoundTrips library
library-RoundTrips = record {
  pem = plain_library-RoundTrips.pem;
  vpn_ip = plain_library-RoundTrips.vpn_ip;
  strings = plain_library-RoundTrips.strings;
  octets = plain_library-RoundTrips.octets;
}

abbrev same_extensions : List Extension → List Extension → Bool
same_extensions [] [] = true
same_extensions (x ∷ xs) (y ∷ ys) = x.id =? y.id && x.value =? y.value && same_extensions xs ys
same_extensions _ _ = false

same_extensions-eq : (xs ys : List Extension) → same_extensions xs ys ≡ true → xs ≡ ys
same_extensions-eq [] [] h = refl
same_extensions-eq [] (y ∷ ys) h = cc
same_extensions-eq (x ∷ xs) [] h = cc
same_extensions-eq (x ∷ xs) (y ∷ ys) h =
    ground
      (arith, same_bytes_iff x.id y.id, same_bytes_iff x.value y.value, same_extensions-eq xs ys)

-- Only the one template is signed.
abbrev create : Template → Parent → List ℕ → List ℕ → Option (List ℕ)
create t parent pub_key key =
    if not t.is_ca && same_extensions t.extra_extensions extras then some (7 ∷ []) else none

abbrev pub issuer : Issuer (List ℕ)
issuer = record { create_certificate = create }

made_by :
    (test : Bool) (der : List ℕ) (x : X509)
    → (if test then some (7 ∷ []) else none) ≡ some der
    → read_der der ≡ some x
    → (test ≡ true) × (x ≡ issued_x509)
made_by true der x h known =
    let same : (7 ∷ []) ≡ der = cc in
    let there : some issued_x509 ≡ some x =
      subst (λ (d : List ℕ). read_der d ≡ some x) (sym same) known in
    (refl, sym (cc))
made_by false der x h known = cc

both : (a b : Bool) → (not a && b) ≡ true → (a ≡ false) × (b ≡ true)
both true b h = cc
both false b h = (refl, h)

created :
    (t : Template) (parent : Parent) (pub_key key der : List ℕ) (x : X509)
    → create t parent pub_key key ≡ some der
    → read_der der ≡ some x
    → (t.is_ca ≡ false) × (t.extra_extensions ≡ extras) × (x ≡ issued_x509)
created t parent pub_key key der x h known =
    let (good, same) =
      made_by (not t.is_ca && same_extensions t.extra_extensions extras) der x h known in
    let (no_ca, equal) = both t.is_ca (same_extensions t.extra_extensions extras) good in
    (no_ca, same_extensions-eq t.extra_extensions extras equal, same)

some_key : (der : List ℕ) (x : X509) → read_der der ≡ some x → x.public_key ≢ ed25519_key []
some_key der x h none_there = elim (Bool-cases (der =? (7 ∷ []))) [
  | inl seven ↦ ground (arith, h, none_there)
  | inr other ↦ ground (arith, h, none_there)
]

and_false : (a b : Bool) → b ≡ false → (a && b) ≡ false
and_false true b h = h
and_false false b h = refl

pub issuer-IssuesChains : IssuesChains library signatures issuer
issuer-IssuesChains = record {
  key_size = some_key;
  keeps_is_ca = λ t parent pub_key key der x h known.
      let (no_ca, _, same) = created t parent pub_key key der x h known in
      ap (λ (y : X509). y.is_ca) same ∙ sym (and_false t.basic_constraints_valid t.is_ca no_ca);
  keeps_extensions = λ t parent pub_key key der x h known.
      let (_, same, is_x) = created t parent pub_key key der x h known in
      ([], tt, ap (λ (y : X509). y.extensions) is_x ∙ sym same);
  verifies_issued =
      λ t ca x pub_key key der now h known no_ca own_only other is_ca may own valid dates. refl;
}
