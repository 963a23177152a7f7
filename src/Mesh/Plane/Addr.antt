-- ===== src/Mesh/Plane/Addr.antt =====
-- Addresses of a grid of routers.
use gran.Prelude.{ℕ, ◌≡◌, ◌+◌, ◌*◌, ◌^◌, ◌<◌, arith, refl, u64}
use gran.Prelude.Bits.{field_bit_or}
use gran.Mesh.Plane.{plane_x, plane_y, plane_elem, plane_off, mesh2d_addr}

sum-parts :
    (x y elem off : ℕ)
    → x < 2 ^ 8
    → y < 2 ^ 8
    → elem < 2 ^ 16
    → off < 2 ^ 32
    → mesh2d_addr x y elem off ≡ y * 2 ^ 56 + (x * 2 ^ 48 + (elem * 2 ^ 32 + off))
unfolding mesh2d_addr
sum-parts x y elem off h k l m =
    let x_fits : u64 (x * 2 ^ 48) ≡ x * 2 ^ 48 = omega arith in
    let y_fits : u64 (y * 2 ^ 56) ≡ y * 2 ^ 56 = omega arith in
    let elem_fits : u64 (elem * 2 ^ 32) ≡ elem * 2 ^ 32 = omega arith in
    rw
      (
        x_fits,
        y_fits,
        elem_fits,
        field_bit_or 32 elem off m,
        field_bit_or 48 x (elem * 2 ^ 32 + off) (omega arith),
        field_bit_or 56 y (x * 2 ^ 48 + (elem * 2 ^ 32 + off)) (omega arith),
      )
      refl

-- `addr_mesh2d` takes apart what `mesh2d_addr` puts together.
pub mesh2d_addr-parts :
    (x y elem off : ℕ)
    → x < 2 ^ 8
    → y < 2 ^ 8
    → elem < 2 ^ 16
    → off < 2 ^ 32
    → (plane_x (mesh2d_addr x y elem off) ≡ x)
      × (plane_y (mesh2d_addr x y elem off) ≡ y)
      × (plane_elem (mesh2d_addr x y elem off) ≡ elem)
      × (plane_off (mesh2d_addr x y elem off) ≡ off)
mesh2d_addr-parts x y elem off h k l m =
    rw (sum-parts x y elem off h k l m) (omega arith, omega arith, omega arith, omega arith)
