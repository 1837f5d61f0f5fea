-- ===== src/Protocol/WireTests.antt =====
-- A payload of two bytes encoded and decoded, and each theorem at a concrete input.
use slam.Base.{
  ℕ, ◌≡◌, refl, ℤ, pos, Bool, true, Option, none, some, List, [], ◌∷◌, map, drop, ret, arith,
}
use slam.Lua.Api.{Text}
use slam.Lua.Sample.{Thing, table, lists}
use slam.Message.{Message}
use slam.Message.Cells.{Cell}
use slam.Socket.Framing.{frame, IsFrame}
use slam.Protocol.{Protocol}
use slam.Protocol.Wire.{encode, decode, handed}
use slam.Protocol.Framed.{encode-IsFrame, decode-encode}

abbrev builder_encode : List Thing → ℤ → Option (List ℕ) × List Thing
builder_encode l msgid = (some (8 ∷ (1 ∷ [])), drop 1 l)

abbrev builder_decode : List Thing → ℤ → List Cell → Bool × List Thing
builder_decode l msgid payload = (true, table ∷ l)

abbrev no_names : Protocol (Unit {0}) Text
no_names = record { regtable = none ∷ []; builder = tt }

encode-IsFrame_example :
    (bs : List ℕ) × (encode builder_encode (table ∷ []) 5 (pos 300)
      ≡ ret (some (record (frame 5 bs) { bytesize = 0 }), []))
    × IsFrame 64 bs
    × (drop 18 bs ≡ 8 ∷ (1 ∷ []))
encode-IsFrame_example =
    encode-IsFrame builder_encode (table ∷ []) [] 5 64 (pos 300) (8 ∷ (1 ∷ [])) refl (omega arith)
      (omega arith)

encode_test :
    encode builder_encode (table ∷ []) 5 (pos 300)
    ≡ ret (
      some
          (record (frame 5 (
            20
            ∷ (0
                ∷ (0
                    ∷ (0
                        ∷ (0
                            ∷ (0
                                ∷ (0
                                    ∷ (0
                                        ∷ (0
                                            ∷ (0
                                                ∷ (0
                                                    ∷ (0
                                                        ∷ (44
                                                            ∷ (1
                                                            ∷ (0
                                                            ∷ (0
                                                            ∷ (0
                                                            ∷ (0
                                                            ∷ (8 ∷ (1 ∷ []))))))))))))))))))))) {
                                                            bytesize = 0;
                                                            }),
      [],
    )
unfolding encode slam.Message.Cells.filled
encode_test = refl

decode-encode_example :
    (m : Message) × (encode builder_encode (table ∷ []) 5 (pos 300) ≡ ret (some m, []))
    × (decode lists builder_decode no_names [] (record m { bytesize = m.bufsize })
        ≡ ret (handed lists builder_decode no_names [] 5 (pos 300) (map some (8 ∷ (1 ∷ [])))))
decode-encode_example =
    decode-encode lists builder_encode builder_decode no_names (table ∷ []) [] [] 5 300
      (8 ∷ (1 ∷ [])) refl (omega arith) (omega arith)
