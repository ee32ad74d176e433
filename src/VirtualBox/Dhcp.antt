-- ===== src/VirtualBox/Dhcp.antt =====
-- drivers/virtualbox/virtualbox.go: the addresses of a host-only network.
use p2box.Base.{
  ℕ, zero, suc, ◌+◌, ◌-◌, ◌%◌, ◌^◌, ◌≤◌, ◌<◌, ◌≢◌, ◌≡◌, refl, false, Bool-cases, arith,
  if◌then◌else◌, leb, ◌==◌, ==_iff, inl, inr,
}
use p2box.Go.{Error, message, Go, ok, err}
use p2box.Drivers.{Method}

-- An IPv4 address, from its four bytes.
pub record Ip : Type 0 where
  pub a : ℕ
  pub b : ℕ
  pub c : ℕ
  pub d : ℕ

-- net.IPNet: its address, and the number of ones of its mask of 32 bits.
pub record IpNet : Type 0 where
  pub ip : Ip
  pub ones : ℕ

abbrev pub byte : ℕ → ℕ
byte n = n % 2 ^ 8

-- The size of what a mask with `ones` ones leaves open.
abbrev pub hosts : IpNet → ℕ
hosts network = 2 ^ (32 - network.ones)

-- The lower and the upper address. The last byte of the upper one is `hosts - 2` as a byte, which
-- is 255 where the difference is -1.
unfoldable pub get_dhcp_address_range : Ip → IpNet → Ip × Ip
get_dhcp_address_range dhcp_addr network =
    let n = network.ip in
    if leb network.ones 24
    then (record n { d = 100 }, record n { d = 254 })
    else (record n { d = byte (dhcp_addr.d + 1) }, record n { d = byte (hosts network + 254) })

abbrev pub unable_to_generate_random_ip : Error
unable_to_generate_random_ip = message "unable to generate random IP"

-- `RandomInt(24)`
module _ {W : Type 0} (random_int : ℕ → Method W ℕ) where
  -- The attempts that are left.
  unfoldable pub random_attempts : ℕ → Ip → Go W Ip
  random_attempts zero n w = (err unable_to_generate_random_ip, w)
  random_attempts (suc attempts) n w =
      let (r, w') = random_int 24 w in
      let others = random_attempts attempts n w' in
      if byte (r + 1) == n.d then others else (ok (record n { d = byte (r + 1) }), w')

  unfoldable pub get_random_ip_in_subnet : Ip → Go W Ip
  get_random_ip_in_subnet base_ip w = random_attempts 5 base_ip w

hosts_small : (k : ℕ) → 2 ≤ k → k ≤ 7 → (4 ≤ 2 ^ k) × (2 ^ k ≤ 128)
hosts_small zero h h' = absurd (omega arith)
hosts_small (suc zero) h h' = absurd (omega arith)
hosts_small (suc (suc zero)) h h' = (omega arith, omega arith)
hosts_small (suc (suc (suc zero))) h h' = (omega arith, omega arith)
hosts_small (suc (suc (suc (suc zero)))) h h' = (omega arith, omega arith)
hosts_small (suc (suc (suc (suc (suc zero))))) h h' = (omega arith, omega arith)
hosts_small (suc (suc (suc (suc (suc (suc zero)))))) h h' = (omega arith, omega arith)
hosts_small (suc (suc (suc (suc (suc (suc (suc zero))))))) h h' = (omega arith, omega arith)
hosts_small (suc (suc (suc (suc (suc (suc (suc (suc k)))))))) h h' = absurd (omega arith)

-- In a network of 4 to 128 addresses whose last byte begins at 0, the addresses that are given out
-- lie between the server's and the one for broadcasts, if the server's leaves room for one.
pub get_dhcp_address_range_fits :
    (dhcp_addr : Ip) (network : IpNet)
    → 25 ≤ network.ones
    → network.ones ≤ 30
    → network.ip.d ≡ 0
    → dhcp_addr.d + 2 < hosts network
    → let (lower, upper) = get_dhcp_address_range dhcp_addr network in
      (dhcp_addr.d < lower.d) × (lower.d ≤ upper.d) × (upper.d + 1 < hosts network)
unfolding get_dhcp_address_range
get_dhcp_address_range_fits dhcp_addr network l u z room =
    let (low, high) = hosts_small (32 - network.ones) (omega arith) (omega arith) in
    let small : leb network.ones 24 ≡ false = ground arith in
    rw small (omega arith, omega arith, omega arith)

-- In a network of 4 to 128 addresses whose last byte begins above 0, the highest address that is
-- given out lies below the network.
pub get_dhcp_address_range_misses :
    (dhcp_addr : Ip) (network : IpNet)
    → 25 ≤ network.ones
    → network.ones ≤ 30
    → hosts network ≤ network.ip.d
    → let (lower, upper) = get_dhcp_address_range dhcp_addr network in upper.d < network.ip.d
unfolding get_dhcp_address_range
get_dhcp_address_range_misses dhcp_addr network l u base =
    let (low, high) = hosts_small (32 - network.ones) (omega arith) (omega arith) in
    let small : leb network.ones 24 ≡ false = ground arith in rw small (omega arith)

module _ {W : Type 0} (random_int : ℕ → Method W ℕ) where
  random_attempts-ok :
      (attempts : ℕ) (n r : Ip) (w : W)
      → ((w' : W) → (random_int 24 w').0 < 24)
      → (random_attempts random_int attempts n w).0 ≡ ok r
      → (r.d ≢ n.d) × (1 ≤ r.d) × (r.d ≤ 24) × (r.a ≡ n.a) × (r.b ≡ n.b) × (r.c ≡ n.c)
  unfolding random_attempts
  random_attempts-ok zero n r w small h = cc h
  random_attempts-ok (suc attempts) n r w small h =
      elim (Bool-cases (byte ((random_int 24 w).0 + 1) == n.d)) [
        | inl e ↦ random_attempts-ok attempts n r (random_int 24 w).1 small (rw e at h)
        | inr e ↦
            let below = small w in
            let found : r ≡ record n { d = byte ((random_int 24 w).0 + 1) } = cc (rw e at h) in
            rw found (
              (λ p. cc (e, (==_iff (byte ((random_int 24 w).0 + 1)) n.d).1 p)),
              omega arith,
              omega arith,
              refl,
              refl,
              refl,
            )
      ]

  -- The address of the DHCP server, if one is found, is in the network of 256 addresses of the
  -- host, from 1 to 24, and is not the host's.
  pub get_random_ip_in_subnet-ok :
      (n r : Ip) (w : W)
      → ((w' : W) → (random_int 24 w').0 < 24)
      → (get_random_ip_in_subnet random_int n w).0 ≡ ok r
      → (r.d ≢ n.d) × (1 ≤ r.d) × (r.d ≤ 24) × (r.a ≡ n.a) × (r.b ≡ n.b) × (r.c ≡ n.c)
  unfolding get_random_ip_in_subnet
  get_random_ip_in_subnet-ok n r w small h = random_attempts-ok 5 n r w small h
