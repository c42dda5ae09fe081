-- ===== src/Lcp/Fuel.antt =====
-- The fuel of the loops along the options of a packet, src/lib/ppp/ppp.c.
use liquorice.Base.{ℕ, zero, suc, ◌+◌, ◌-◌, ◌≤◌, ◌≡◌, refl, ◌||◌, arith, ltb, Bool-cases, inl, inr}
use liquorice.Control.Replies.{Reply}
use liquorice.Lcp.Instance.{Link}
use liquorice.Lcp.Parse.{check_option, check_options, walk_options}

-- The loop of a configure-request gives the same with every fuel that is at least the octets that are left:
-- it ends by itself.
pub check_options-fuel :
    (stack mem : ℕ → ℕ) (fuel fuel' sz buf : ℕ) (state : Link × Reply)
    → sz ≤ fuel
    → sz ≤ fuel'
    → check_options stack mem fuel sz buf state ≡ check_options stack mem fuel' sz buf state
unfolding check_options
check_options-fuel stack mem zero zero sz buf state h h' = refl
check_options-fuel stack mem zero (suc fuel') sz buf (pi, r) h h' = ground arith
check_options-fuel stack mem (suc fuel) zero sz buf (pi, r) h h' = ground arith
check_options-fuel stack mem (suc fuel) (suc fuel') sz buf (pi, r) h h' =
    let optsz = mem (buf + 1) in
    let state' = check_option stack mem (buf + 2) (mem buf) optsz (pi, r) in
    elim (Bool-cases (ltb sz 2)) [
      | inl e ↦ rw e refl
      | inr e ↦ elim (Bool-cases (ltb sz optsz || ltb optsz 2)) [
        | inl e' ↦ rw e rw e' refl
        | inr e' ↦
            let rest =
              check_options-fuel stack mem fuel fuel' (sz - optsz) (buf + optsz) state'
                (ground arith) (ground arith) in
            rw e rw e' rest
      ]
    ]

pub walk_options-fuel :
    {Options : Type 0} (use_option : ℕ → ℕ → ℕ → Options → Options) (mem : ℕ → ℕ)
    (fuel fuel' sz buf : ℕ) (pi : Options)
    → sz ≤ fuel
    → sz ≤ fuel'
    → walk_options use_option mem fuel sz buf pi ≡ walk_options use_option mem fuel' sz buf pi
unfolding walk_options
walk_options-fuel use_option mem zero zero sz buf pi h h' = refl
walk_options-fuel use_option mem zero (suc fuel') sz buf pi h h' = ground arith
walk_options-fuel use_option mem (suc fuel) zero sz buf pi h h' = ground arith
walk_options-fuel use_option mem (suc fuel) (suc fuel') sz buf pi h h' =
    let optsz = mem (buf + 1) in
    let pi' = use_option (buf + 2) (mem buf) optsz pi in
    elim (Bool-cases (ltb sz 2 || (ltb sz optsz || ltb optsz 2))) [
      | inl e ↦ rw e refl
      | inr e ↦
          let rest =
            walk_options-fuel use_option mem fuel fuel' (sz - optsz) (buf + optsz) pi'
              (ground arith) (ground arith) in
          rw e rest
    ]
