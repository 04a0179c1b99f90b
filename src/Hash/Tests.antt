-- ===== src/Hash/Tests.antt =====
-- Published test vectors.
use veilforge.Base.{ℕ, ◌%◌, ◌<◌, ◌≡◌, refl, arith, [], length, replicate, All, All-replicate}
use veilforge.Base.Text.{codes}
use veilforge.Hash.Keccak.{State, rotate_left_64, absorb, pad, keccak_hex, function_selector}
use veilforge.Hash.Keccak.Bounds.{IsLane, IsByte, IsState, rotate_left_64_inverse, absorb-IsState}
use veilforge.Hash.Keccak.Padding.{unpad, unpad-pad}
use veilforge.Hash.Sha256.Padding.{unpad as unpad_sha, unpad-pad_sha}
use veilforge.Hash.Sha256.{pad as pad_sha, hex_sha_256}

keccak_empty :
    keccak_hex [] ≡ codes "0xc5d2460186f7233c927e7db2dcc703c0e500b653ca82273b7bfad8045d85a470"
unfolding keccak_hex
keccak_empty = refl

-- The selector that mainnet-readiness.js expects of the calldata.
publish_selector :
    function_selector (codes "publishReport(bytes32,bytes32,bytes32,uint16,string,string)")
    ≡ codes "0x6133eb3a"
unfolding function_selector
publish_selector = refl

sha_abc :
    hex_sha_256 (codes "abc")
    ≡ codes "ba7816bf8f01cfea414140de5dae2223b00361a396177a9cb410ff61f20015ad"
unfolding hex_sha_256
sha_abc = refl

rotate_left_64_inverse_example :
    rotate_left_64 (rotate_left_64 0x8000000000000001 13) 51 ≡ 0x8000000000000001
rotate_left_64_inverse_example =
    rotate_left_64_inverse 0x8000000000000001 13 51 (omega arith) (omega arith) refl (omega arith)

-- The block that absorbs the message abc.
abbrev blank : State
blank = replicate {A = ℕ} 25 0

blank-IsState : IsState blank
blank-IsState = record { lanes = refl; words = All-replicate IsLane 25 0 (omega arith) }

abc_bytes : All IsByte (codes "abc")
abc_bytes = (omega arith, (omega arith, (omega arith, tt)))

absorb-IsState_example : IsState (absorb 1 (codes "abc") blank)
absorb-IsState_example = absorb-IsState 1 (codes "abc") blank abc_bytes blank-IsState

unpad-pad_example :
    (unpad (pad (codes "abc")) ≡ codes "abc")
    × (length (pad (codes "abc")) % 136 ≡ 0)
    × (length (codes "abc") < length (pad (codes "abc")))
unpad-pad_example = unpad-pad (codes "abc")

unpad-pad_sha_example :
    (unpad_sha (pad_sha (codes "abc")) ≡ codes "abc") × (length (pad_sha (codes "abc")) % 64 ≡ 0)
unpad-pad_sha_example = unpad-pad_sha (codes "abc") (omega arith)
