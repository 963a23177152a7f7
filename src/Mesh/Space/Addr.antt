-- ===== src/Mesh/Space/Addr.antt =====
-- Addresses of a space of routers.
use gran.Prelude.{ℕ, ◌≡◌, ◌+◌, ◌*◌, ◌^◌, ◌<◌, arith, refl, u64}
use gran.Prelude.Bits.{field_bit_or}
use gran.Mesh.Space.{space_x, space_y, space_z, space_elem, space_off, mesh3d_addr}

sum-parts :
    (x y z elem off : ℕ)
    → x < 2 ^ 8
    → y < 2 ^ 8
    → z < 2 ^ 8
    → elem < 2 ^ 8
    → off < 2 ^ 32
    → mesh3d_addr x y z elem off ≡ z * 2 ^ 56 + (y * 2 ^ 48 + (x * 2 ^ 40 + (elem * 2 ^ 32 + off)))
unfolding mesh3d_addr
sum-parts x y z elem off h k l m o =
    let x_fits : u64 (x * 2 ^ 40) ≡ x * 2 ^ 40 = omega arith in
    let y_fits : u64 (y * 2 ^ 48) ≡ y * 2 ^ 48 = omega arith in
    let z_fits : u64 (z * 2 ^ 56) ≡ z * 2 ^ 56 = omega arith in
    let elem_fits : u64 (elem * 2 ^ 32) ≡ elem * 2 ^ 32 = omega arith in
    rw
      (
        x_fits,
        y_fits,
        z_fits,
        elem_fits,
        field_bit_or 32 elem off o,
        field_bit_or 40 x (elem * 2 ^ 32 + off) (omega arith),
        field_bit_or 48 y (x * 2 ^ 40 + (elem * 2 ^ 32 + off)) (omega arith),
        field_bit_or 56 z (y * 2 ^ 48 + (x * 2 ^ 40 + (elem * 2 ^ 32 + off))) (omega arith),
      )
      refl

-- `addr_mesh3d` takes apart what `mesh3d_addr` puts together, for coordinates and an element of 8 bits and an
-- offset of 32.
pub mesh3d_addr-parts :
    (x y z elem off : ℕ)
    → x < 2 ^ 8
    → y < 2 ^ 8
    → z < 2 ^ 8
    → elem < 2 ^ 8
    → off < 2 ^ 32
    → (space_x (mesh3d_addr x y z elem off) ≡ x)
      × (space_y (mesh3d_addr x y z elem off) ≡ y)
      × (space_z (mesh3d_addr x y z elem off) ≡ z)
      × (space_elem (mesh3d_addr x y z elem off) ≡ elem)
      × (space_off (mesh3d_addr x y z elem off) ≡ off)
mesh3d_addr-parts x y z elem off h k l m o =
    rw (sum-parts x y z elem off h k l m o)
      (omega arith, omega arith, omega arith, omega arith, omega arith)
