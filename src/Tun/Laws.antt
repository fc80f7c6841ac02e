-- ===== src/Tun/Laws.antt =====
-- Which descriptors are open after some calls, and the numbers and names of an ifreq.
use neth.Base.{
  ℕ, ◌≡◌, ◌≢◌, refl, ◌||◌, ◌∙◌, or_err, guard, Bool, true, false, List, [], ◌∷◌, ◌++◌, Option, none,
  some, ◌==◌, if◌then◌else◌, Result, ok, err, arith,
}
use neth.Base.Int.{ℤ}
use neth.Base.Text.{Text}
use neth.Net.{Prefix}
use neth.Tun.{
  Call, opens, closes, requests, writes_file, Kernel, Device, Calls, TunError, open_device, ◌>>=◌,
  bad_cidr, only_ipv4, open_failed, socket_failed, tun_set_iff, quiet, is4, get_name, set_name,
  set_flags, zero_ifreq, configure, ioctl_ptr, opened, closing_on_error, and_close,
}

-- Whether a descriptor is open after some calls, when it was before.
abbrev pub open_after : ℕ → List Call → Bool → Bool
open_after fd [] before = before
open_after fd (opens f ∷ calls) before = open_after fd calls (if f == fd then true else before)
open_after fd (closes f ∷ calls) before = open_after fd calls (if f == fd then false else before)
open_after fd (requests f req r ∷ calls) before = open_after fd calls before
open_after fd (writes_file path body ∷ calls) before = open_after fd calls before

pub open_after-append :
    (fd : ℕ) (xs ys : List Call) (before : Bool)
    → open_after fd (xs ++ ys) before ≡ open_after fd ys (open_after fd xs before)
open_after-append fd [] ys before = refl
open_after-append fd (opens f ∷ xs) ys before = open_after-append fd xs ys _
open_after-append fd (closes f ∷ xs) ys before = open_after-append fd xs ys _
open_after-append fd (requests f req r ∷ xs) ys before = open_after-append fd xs ys before
open_after-append fd (writes_file path body ∷ xs) ys before = open_after-append fd xs ys before

-- The descriptor that a result leaves open.
abbrev pub is_file : {E : Type 0} → ℕ → Result E Device → Bool
is_file d (err e) = false
is_file d (ok dev) = dev.file == d

-- What is open when `fd` is opened, or closed.
abbrev plus : ℕ → ℕ → Bool → Bool
plus fd d before = if fd == d then true else before

-- The calls neither open nor close `d`.
abbrev pub Keeps : ℕ → List Call → Type 0
Keeps d calls = (before : Bool) → open_after d calls before ≡ before

module _ {E : Type 0} where
  pub opened-err :
      (o : Option ℕ) (failure e : E) → (opened o failure).1 ≡ err e → (opened o failure).0 ≡ []
  opened-err none failure e h = refl
  opened-err (some fd) failure e h = cc

  pub opened-ok :
      (o : Option ℕ) (failure : E) (fd : ℕ)
      → (opened o failure).1 ≡ ok fd
      → (o ≡ some fd) × ((opened o failure).0 ≡ opens fd ∷ [])
  opened-ok none failure fd h = cc
  opened-ok (some f) failure fd h = (cc, cc)

-- Steps that open descriptors and close them again.
module _ {E : Type 0} (d : ℕ) where
  pub bind-open :
      {A B : Type 0} (before : Bool) (held : Result E B → Bool) (m : Calls E A)
      (next : A → Calls E B)
      → ((e : E) → m.1 ≡ err e → open_after d m.0 before ≡ held (err e))
      → ((a : A) → m.1 ≡ ok a → open_after d (next a).0 (open_after d m.0 before) ≡ held (next a).1)
      → open_after d (m >>= next).0 before ≡ held (m >>= next).1
  bind-open before held (calls, err e) next failing going = failing e refl
  bind-open before held (calls, ok a) next failing going =
      open_after-append d calls (next a).0 before ∙ going a refl

  pub closing-err :
      {A : Type 0} (fd : ℕ) (before : Bool) (m : Calls E A) (e : E)
      → (closing_on_error fd m).1 ≡ err e
      → open_after d (closing_on_error fd m).0 before
        ≡ (if fd == d then false else open_after d m.0 before)
  closing-err fd before (calls, err f) e h = open_after-append d calls (closes fd ∷ []) before
  closing-err fd before (calls, ok a) e h = cc

  pub closing-ok :
      {A : Type 0} (fd : ℕ) (m : Calls E A) (a : A)
      → (closing_on_error fd m).1 ≡ ok a
      → ((closing_on_error fd m).0 ≡ m.0) × (m.1 ≡ ok a)
  closing-ok fd (calls, err f) a h = cc
  closing-ok fd (calls, ok b) a h = (refl, h)

module _ (k : Kernel) where
  configure-Keeps :
      (fd sock : ℕ) (dev_name : Text) (prefix : Prefix) (mtu : ℤ) (d : ℕ)
      → Keeps d (configure k fd sock dev_name prefix mtu).0
  unfolding configure ioctl_ptr
  configure-Keeps fd sock dev_name prefix mtu d before = ground arith

  -- A device is of the descriptor it was configured with.
  IsOf : ℕ → Result TunError Device → Type 0
  IsOf fd (err e) = Unit
  IsOf fd (ok dev) = dev.file ≡ fd

  configure-IsOf :
      (fd sock : ℕ) (dev_name : Text) (prefix : Prefix) (mtu : ℤ)
      → IsOf fd (configure k fd sock dev_name prefix mtu).1
  unfolding configure ioctl_ptr IsOf
  configure-IsOf fd sock dev_name prefix mtu = ground arith

  module _ (d : ℕ) (before : Bool) where
    -- What is open before is none of the descriptors that the kernel gives.
    IsNew : ℕ → Type 0
    IsNew fd = before ≡ true → fd ≢ d

    closed_up :
        (fd sock : ℕ) (m : Calls TunError Device)
        → fd ≢ sock
        → IsNew fd
        → IsNew sock
        → Keeps d m.0
        → IsOf fd m.1
        → open_after d (and_close sock (closing_on_error fd m)).0 (plus sock d (plus fd d before))
          ≡ (before || is_file d (and_close sock (closing_on_error fd m)).1)
    unfolding IsOf IsNew
    closed_up fd sock (calls, err e) apart new_fd new_sock keeps of =
        rw (open_after-append d (calls ++ closes fd ∷ []) (closes sock ∷ []) _)
          (rw (open_after-append d calls (closes fd ∷ []) _) (rw (keeps _) (ground arith)))
    closed_up fd sock (calls, ok dev) apart new_fd new_sock keeps of =
        rw (open_after-append d calls (closes sock ∷ []) _) (rw (keeps _) (ground arith))

    -- Open after the control socket was asked for.
    with_socket :
        (fd : ℕ) (prefix : Prefix) (mtu : ℤ) (dev_name : Text)
        → IsNew fd
        → ((sock : ℕ) → k.control_socket ≡ some sock → IsNew sock × (fd ≢ sock))
        → (let m = closing_on_error fd (opened k.control_socket socket_failed) >>= λ sock.
              and_close sock (closing_on_error fd (configure k fd sock dev_name prefix mtu)) in
            open_after d m.0 (plus fd d before) ≡ (before || is_file d m.1))
    unfolding IsNew
    with_socket fd prefix mtu dev_name new_fd apart =
        bind-open d (plus fd d before) (λ r. before || is_file d r)
          (closing_on_error fd (opened k.control_socket socket_failed)) _
          (λ e h.
            closing-err d fd (plus fd d before) (opened k.control_socket socket_failed) e h
            ∙ socket_refused k.control_socket e h)
          (λ sock h.
            let (same, given) = closing-ok d fd (opened k.control_socket socket_failed) sock h in
            let (there, calls) = opened-ok k.control_socket socket_failed sock given in
            let (new_sock, differ) = apart sock there in
            rw (same ∙ calls) (
              closed_up fd sock (configure k fd sock dev_name prefix mtu) differ new_fd new_sock
                (configure-Keeps fd sock dev_name prefix mtu d)
                (configure-IsOf fd sock dev_name prefix mtu)))
      where
        socket_refused :
            (o : Option ℕ) (e : TunError)
            → (closing_on_error fd (opened o socket_failed)).1 ≡ err e
            → (if fd == d
                then false
                else open_after d (opened o socket_failed).0 (plus fd d before))
              ≡ (before || false)
        socket_refused none e h = ground arith
        socket_refused (some s) e h = cc

    pub open_device-open :
        (parse_prefix : Text → Option Prefix) (name cidr : Text) (mtu : ℤ)
        → ((fd : ℕ) → k.open_clone ≡ some fd → before ≡ true → fd ≢ d)
        → ((sock : ℕ) → k.control_socket ≡ some sock → before ≡ true → sock ≢ d)
        → ((fd sock : ℕ) → k.open_clone ≡ some fd → k.control_socket ≡ some sock → fd ≢ sock)
        → open_after d (open_device k parse_prefix name cidr mtu).0 before
          ≡ (before || is_file d (open_device k parse_prefix name cidr mtu).1)
    unfolding open_device ioctl_ptr IsNew
    open_device-open parse_prefix name cidr mtu new_fd new_sock apart =
        let left : Result TunError Device → Bool = λ r. before || is_file d r in
        let nothing : before ≡ (before || false) = ground arith in
        bind-open d before left (quiet (or_err (parse_prefix cidr) (bad_cidr cidr))) _
          (λ e h. nothing)
          λ prefix h.
            bind-open d before left (quiet (guard (is4 prefix.addr) (only_ipv4 cidr))) _
              (λ e h. nothing)
              λ done h.
                bind-open d before left (opened k.open_clone open_failed) _
                  (λ e h. rw (opened-err k.open_clone open_failed e h) nothing)
                  λ fd clone.
                    let (there, calls) = opened-ok k.open_clone open_failed fd clone in
                    let ask =
                      ioctl_ptr k fd tun_set_iff (set_flags 0x1001 (set_name name zero_ifreq)) in
                    let new : before ≡ true → fd ≢ d = new_fd fd there in
                    rw calls (
                      bind-open d (plus fd d before) left (closing_on_error fd ask) _
                        (λ e h. closing-err d fd (plus fd d before) ask e h ∙ ground arith)
                        (λ tun_ifr h.
                          let (same, _) = closing-ok d fd ask tun_ifr h in
                          rw same (
                            with_socket fd prefix mtu (get_name tun_ifr) new
                              (λ sock given. (new_sock sock given, apart fd sock there given)))))
