-- ===== src/Mesh/Line/Addr.antt =====
-- Addresses of a line of routers.
use gran.Prelude.{ℕ, ◌≡◌, ◌+◌, ◌*◌, ◌^◌, ◌<◌, arith, refl, u64}
use gran.Prelude.Bits.{bit_or_field}
use gran.Mesh.Line.{line_cluster, line_elem, line_off, mesh1d_addr}

sum-parts :
    (cluster elem off : ℕ)
    → cluster < 2 ^ 16
    → elem < 2 ^ 16
    → off < 2 ^ 32
    → mesh1d_addr cluster elem off ≡ (cluster * 2 ^ 16 + elem) * 2 ^ 32 + off
unfolding mesh1d_addr
sum-parts cluster elem off h k l =
    let cluster_fits : u64 (cluster * 2 ^ 48) ≡ cluster * 2 ^ 48 = omega arith in
    let elem_fits : u64 (elem * 2 ^ 32) ≡ elem * 2 ^ 32 = omega arith in
    let below : elem * 2 ^ 32 < 2 ^ 48 = omega arith in
    let whole : cluster * 2 ^ 48 + elem * 2 ^ 32 ≡ (cluster * 2 ^ 16 + elem) * 2 ^ 32 =
      omega arith in
    rw
      (
        cluster_fits,
        elem_fits,
        bit_or_field 48 cluster (elem * 2 ^ 32) below,
        whole,
        bit_or_field 32 (cluster * 2 ^ 16 + elem) off l,
      )
      refl

-- `addr_mesh1d` takes apart what `mesh1d_addr` puts together.
pub mesh1d_addr-parts :
    (cluster elem off : ℕ)
    → cluster < 2 ^ 16
    → elem < 2 ^ 16
    → off < 2 ^ 32
    → (line_cluster (mesh1d_addr cluster elem off) ≡ cluster)
      × (line_elem (mesh1d_addr cluster elem off) ≡ elem)
      × (line_off (mesh1d_addr cluster elem off) ≡ off)
mesh1d_addr-parts cluster elem off h k l =
    rw (sum-parts cluster elem off h k l) (omega arith, omega arith, omega arith)
