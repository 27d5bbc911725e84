-- ===== src/Net/Eth/Tests.antt =====
-- A header of net/eth.c.
use prettyos.Common.{◌%◌, ◌^◌, ◌≡◌, refl}
use prettyos.Libc.Strings.{Mem, store}
use prettyos.Libc.Klibc.{copy_loop, u_phys_copy}
use prettyos.Net.Eth.{eth_header, with_source}

abbrev memory : Mem
memory a = a % 2 ^ 8

abbrev frame : Mem
frame = (eth_header memory 0x1000 14 6 60 0x2011 0x2021).1

-- The last byte of the destination, and the first two of the source
last_byte : frame 0x1005 ≡ 0x16
unfolding eth_header with_source u_phys_copy copy_loop store
last_byte = refl

lost_byte : frame 0x1006 ≡ 0
unfolding eth_header with_source u_phys_copy copy_loop store
lost_byte = refl

next_byte : frame 0x1007 ≡ 0x22
unfolding eth_header with_source u_phys_copy copy_loop store
next_byte = refl
