-- ===== src/Network/Ipv4/Header.antt =====
-- The header that `IPv4::sendPacket` builds, and its checksum.
use palmyra_os.Prelude.{ℕ, ◌+◌, ◌^◌, ◌<◌, ◌≡◌, refl, ◌∙◌, length, take, arith}
use palmyra_os.Network.ByteOrder.{to_big_endian16, store-to_big_endian16}
use palmyra_os.Network.Checksum.{
  add_words, fold_carries, fold_rounds, complement16, AllBytes, word_total, word_total-le,
  add_words-word_total, complement16-cancel,
}
use palmyra_os.Network.Ipv4.{header_size, calculate_checksum, build_header, sealed_header}

module _ (total_length protocol source_ip dest_ip : ℕ) where
  header-AllBytes :
      (c : ℕ) → protocol < 2 ^ 8 → AllBytes (build_header total_length protocol c source_ip dest_ip)
  unfolding build_header
  header-AllBytes c hp = ground arith

  header-word_total :
      (c : ℕ)
      → c < 2 ^ 16
      → word_total (build_header total_length protocol (to_big_endian16 c) source_ip dest_ip)
        ≡ word_total (build_header total_length protocol 0 source_ip dest_ip) + c
  unfolding build_header word_total
  header-word_total c hc = omega (arith, store-to_big_endian16 c hc)

  length-build_header :
      (c : ℕ) → length (build_header total_length protocol c source_ip dest_ip) ≡ header_size
  unfolding build_header
  length-build_header c = refl

  take-build_header :
      (c : ℕ)
      → take header_size (build_header total_length protocol c source_ip dest_ip)
        ≡ build_header total_length protocol c source_ip dest_ip
  unfolding build_header
  take-build_header c = refl

  header_bound :
      (c : ℕ)
      → protocol < 2 ^ 8
      → word_total (build_header total_length protocol c source_ip dest_ip) < 2 ^ 31
  header_bound c hp = omega (
    arith,
    word_total-le (build_header total_length protocol c source_ip dest_ip) (header-AllBytes c hp),
    length-build_header c,
  )

  calculate_checksum-word_total :
      (c : ℕ)
      → protocol < 2 ^ 8
      → calculate_checksum (build_header total_length protocol c source_ip dest_ip)
        ≡ complement16 (
            fold_carries fold_rounds
              (word_total (build_header total_length protocol c source_ip dest_ip)))
  unfolding calculate_checksum
  calculate_checksum-word_total c hp =
      let header = build_header total_length protocol c source_ip dest_ip in
      let sum : add_words 0 header ≡ word_total header =
        add_words-word_total 0 header (header-AllBytes c hp) (omega (arith, header_bound c hp))
        ∙ omega arith in
      rw (take-build_header c) (rw sum refl)

  -- A receiver that computes `calculateChecksum` over the header that `sendPacket` builds, its
  -- checksum included, gets 0, the sign of an intact header. It supposes a protocol of one
  -- byte.
  pub calculate_checksum-sealed_header :
      protocol < 2 ^ 8
      → calculate_checksum (sealed_header total_length protocol source_ip dest_ip) ≡ 0
  unfolding sealed_header
  calculate_checksum-sealed_header hp =
      let c = calculate_checksum (build_header total_length protocol 0 source_ip dest_ip) in
      let total = word_total (build_header total_length protocol 0 source_ip dest_ip) in
      let c_eq : c ≡ complement16 (fold_carries fold_rounds total) =
        calculate_checksum-word_total 0 hp in
      calculate_checksum-word_total (to_big_endian16 c) hp
      ∙ rw (header-word_total c (omega (arith, c_eq)))
          (rw c_eq (complement16-cancel total (header_bound 0 hp)))
