-- ===== src/Examples/Devices.antt =====
-- The contents of the requests to the kernel.
use neth.Base.{◌≡◌, refl, [], ◌∷◌, ◌++◌, replicate, map, bytes_key}
use neth.Base.Text.{Text, text}
use neth.Tun.{
  prefix_mask4, get_name, set_flags, set_name, copy_at, up_to_nul, zero_ifreq, set_sockaddr_in,
}

-- The masks and names that go into an ifreq.
masks :
    map prefix_mask4 (0 ∷ 8 ∷ 20 ∷ 32 ∷ [])
    ≡ (0 ∷ 0 ∷ 0 ∷ 0 ∷ [])
      ∷ (255 ∷ 0 ∷ 0 ∷ 0 ∷ [])
      ∷ (255 ∷ 255 ∷ 240 ∷ 0 ∷ [])
      ∷ (255 ∷ 255 ∷ 255 ∷ 255 ∷ [])
      ∷ []
unfolding prefix_mask4
masks = refl

long_names :
    map
      (λ (s : Text). get_name (set_flags 4097 (set_name s zero_ifreq)))
      (text "neth0" ∷ text "a-name-of-more-than-16" ∷ [])
    ≡ text "neth0" ∷ text "a-name-of-more-t" ∷ []
unfolding get_name set_flags set_name copy_at up_to_nul
long_names = refl

requested :
    set_sockaddr_in (10 ∷ 0 ∷ 0 ∷ 1 ∷ []) (set_name (text "tun") zero_ifreq)
    ≡ text "tun" ++ (replicate 13 0 ++ (2 ∷ 0 ∷ 0 ∷ 0 ∷ 10 ∷ 0 ∷ 0 ∷ 1 ∷ replicate 16 0))
unfolding set_sockaddr_in set_flags set_name copy_at
requested = refl
