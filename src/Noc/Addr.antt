-- ===== src/Noc/Addr.antt =====
-- Addresses of the network: the element above, the offset below.
use gran.Prelude.{ℕ, ◌≡◌, ◌*◌, ◌^◌, ◌<◌, arith, u64}
use gran.Prelude.Bits.{bit_or_field}
use gran.Noc.{noc_elem, noc_off, ideal_noc_addr}

-- `addr_ideal_noc` takes apart what `ideal_noc_addr` puts together.
pub ideal_noc_addr-parts :
    (elem off : ℕ)
    → elem < 2 ^ 32
    → off < 2 ^ 32
    → (noc_elem (ideal_noc_addr elem off) ≡ elem) × (noc_off (ideal_noc_addr elem off) ≡ off)
unfolding ideal_noc_addr
ideal_noc_addr-parts elem off h k =
    let whole : u64 (elem * 2 ^ 32) ≡ elem * 2 ^ 32 = omega arith in
    rw (whole, bit_or_field 32 elem off k) (omega arith, omega arith)
