-- ===== src/Commands/NethCert/Steps.antt =====
-- cmd/neth-cert/main.go: what a chain of steps that succeeds has done, and what it has written.
use neth.Base.{
  ℕ, ◌≡◌, refl, sym, ap, subst, ◌∙◌, true, List, Option, some, length, ◌==◌, bytes_key,
  if◌then◌else◌, Result, ok, err, guard, map_err, map_err-eq-ok, guard-eq-ok, ok_injective,
  >>=-eq-ok,
}
use neth.Base.Text.{Text}
use neth.Files.{FileSystem, KeepsFiles}
use neth.Commands.Shell.{CommandError, write_file, write_failed, key_failed}
use neth.Commands.NethCert.{write_pair, write_key, crt_path, key_path}
use neth.Cert.{Library, RoundTrips, Certificate, pem}
use neth.Cert.Keys.{
  KeyError, marshal_x25519_private_key, parse_x25519_private_key, expected_32_bytes,
  pem_type_curve25519_key,
}

pub some_injective : {A : Type 0} {a b : A} → ◌≡◌ {A = Option A} (some a) (some b) → a ≡ b
some_injective h = cc

-- A key file is read back.
pub parse-marshal_x25519 :
    (lib : Library)
    → RoundTrips lib
    → (key : List ℕ) {body : List ℕ} → marshal_x25519_private_key lib key ≡ ok body
    → parse_x25519_private_key lib body ≡ ok key
unfolding marshal_x25519_private_key parse_x25519_private_key
parse-marshal_x25519 lib trips key h =
    let (_, long, same) =
      >>=-eq-ok (guard (length key == 32) (expected_32_bytes (length key))) _ h in
    let size = guard-eq-ok (length key == 32) (expected_32_bytes (length key)) long in
    subst (λ (b : List ℕ). parse_x25519_private_key lib b ≡ ok key) (ok_injective same)
      (rw (parse_x25519_private_key, trips.pem pem_type_curve25519_key key) (rw size refl))

-- A chain of steps that succeeds has a first step that succeeds.
pub step-ok :
    {S A B : Type 0} (t : S) (r : Result CommandError A) (next : A → S × Result CommandError B)
    {s' : S} {b : B}
    → elim r [ err e ↦ (t, err e) | ok a ↦ next a ] ≡ (s', ok b)
    → (a : A) × (r ≡ ok a) × (next a ≡ (s', ok b))
step-ok t (err e) next h = cc
step-ok t (ok a) next h = (a, refl, h)

module _ (fs : FileSystem) where
  pub write_file-ok :
      (path : Text) (body : List ℕ) (mode : ℕ) (s : fs.State) {u : Unit {0}}
      → (write_file fs path body mode s).1 ≡ ok u
      → (fs.write s path body mode).1 ≡ true
  unfolding write_file
  write_file-ok path body mode s h = guard-eq-ok (fs.write s path body mode).1 (write_failed path) h

  module _ (keeps : KeepsFiles fs) (lib : Library) where
    -- What is read after the two files are written.
    abbrev pub after : fs.State → Text → Text → List ℕ → List ℕ → Text → Option (List ℕ)
    after s crt key crt_body key_body path =
        if fs.same_file key path
        then some key_body
        else if fs.same_file crt path
        then some crt_body
        else fs.read s path

    pub write_pair-ok :
        (out_dir base : Text) (c : Certificate) (key_pem : Result KeyError (List ℕ)) (s : fs.State)
        {u : Unit {0}}
        → (write_pair fs lib out_dir base c key_pem s).1 ≡ ok u
        → (body : List ℕ) × (key_pem ≡ ok body)
          × ((path : Text)
              → fs.read (write_pair fs lib out_dir base c key_pem s).0 path
                ≡ after s
                    (crt_path fs out_dir base)
                    (key_path fs out_dir base)
                    (pem lib c)
                    body
                    path)
    unfolding write_pair write_key write_file
    write_pair-ok out_dir base c key_pem s {u} h =
        let crt = crt_path fs out_dir base in
        let key = key_path fs out_dir base in
        let first = write_file fs crt (pem lib c) 420 s in
        let t = first.0 in
        let all : write_pair fs lib out_dir base c key_pem s
            ≡ ((write_pair fs lib out_dir base c key_pem s).0, ok u) =
          λ i. ((write_pair fs lib out_dir base c key_pem s).0, h i) in
        let (_, is_first, h1) = step-ok t first.1 _ all in
        let (body, made, last) = step-ok t (map_err key_failed key_pem) _ h1 in
        let good = write_file-ok crt (pem lib c) 420 s is_first in
        let good' = write_file-ok key body 384 t (ap (λ q. q.1) last) in
        (
          body,
          map_err-eq-ok key_failed key_pem made,
          λ path.
              ap (λ q. fs.read q.0 path) (sym last)
              ∙ keeps.read-write t key path body 384 good'
              ∙ ap (λ o. if fs.same_file key path then some body else o)
                  (keeps.read-write s crt path (pem lib c) 420 good),
        )
