-- ===== src/Crc/Tables.antt =====
-- The tables of libs/crc/crc.c.
use amast.Common.{ℕ, List, [], ◌∷◌}

abbrev pub crc16_lookup : List ℕ
crc16_lookup =
    0x0000 ∷ 0x1021 ∷ 0x2042 ∷ 0x3063 ∷ 0x4084 ∷ 0x50a5 ∷ 0x60c6 ∷ 0x70e7 ∷ 0x8108 ∷ 0x9129 ∷ 0xa14a
    ∷ 0xb16b ∷ 0xc18c ∷ 0xd1ad ∷ 0xe1ce ∷ 0xf1ef ∷ 0x1231 ∷ 0x0210 ∷ 0x3273 ∷ 0x2252 ∷ 0x52b5
    ∷ 0x4294 ∷ 0x72f7 ∷ 0x62d6 ∷ 0x9339 ∷ 0x8318 ∷ 0xb37b ∷ 0xa35a ∷ 0xd3bd ∷ 0xc39c ∷ 0xf3ff
    ∷ 0xe3de ∷ 0x2462 ∷ 0x3443 ∷ 0x0420 ∷ 0x1401 ∷ 0x64e6 ∷ 0x74c7 ∷ 0x44a4 ∷ 0x5485 ∷ 0xa56a
    ∷ 0xb54b ∷ 0x8528 ∷ 0x9509 ∷ 0xe5ee ∷ 0xf5cf ∷ 0xc5ac ∷ 0xd58d ∷ 0x3653 ∷ 0x2672 ∷ 0x1611
    ∷ 0x0630 ∷ 0x76d7 ∷ 0x66f6 ∷ 0x5695 ∷ 0x46b4 ∷ 0xb75b ∷ 0xa77a ∷ 0x9719 ∷ 0x8738 ∷ 0xf7df
    ∷ 0xe7fe ∷ 0xd79d ∷ 0xc7bc ∷ 0x48c4 ∷ 0x58e5 ∷ 0x6886 ∷ 0x78a7 ∷ 0x0840 ∷ 0x1861 ∷ 0x2802
    ∷ 0x3823 ∷ 0xc9cc ∷ 0xd9ed ∷ 0xe98e ∷ 0xf9af ∷ 0x8948 ∷ 0x9969 ∷ 0xa90a ∷ 0xb92b ∷ 0x5af5
    ∷ 0x4ad4 ∷ 0x7ab7 ∷ 0x6a96 ∷ 0x1a71 ∷ 0x0a50 ∷ 0x3a33 ∷ 0x2a12 ∷ 0xdbfd ∷ 0xcbdc ∷ 0xfbbf
    ∷ 0xeb9e ∷ 0x9b79 ∷ 0x8b58 ∷ 0xbb3b ∷ 0xab1a ∷ 0x6ca6 ∷ 0x7c87 ∷ 0x4ce4 ∷ 0x5cc5 ∷ 0x2c22
    ∷ 0x3c03 ∷ 0x0c60 ∷ 0x1c41 ∷ 0xedae ∷ 0xfd8f ∷ 0xcdec ∷ 0xddcd ∷ 0xad2a ∷ 0xbd0b ∷ 0x8d68
    ∷ 0x9d49 ∷ 0x7e97 ∷ 0x6eb6 ∷ 0x5ed5 ∷ 0x4ef4 ∷ 0x3e13 ∷ 0x2e32 ∷ 0x1e51 ∷ 0x0e70 ∷ 0xff9f
    ∷ 0xefbe ∷ 0xdfdd ∷ 0xcffc ∷ 0xbf1b ∷ 0xaf3a ∷ 0x9f59 ∷ 0x8f78 ∷ 0x9188 ∷ 0x81a9 ∷ 0xb1ca
    ∷ 0xa1eb ∷ 0xd10c ∷ 0xc12d ∷ 0xf14e ∷ 0xe16f ∷ 0x1080 ∷ 0x00a1 ∷ 0x30c2 ∷ 0x20e3 ∷ 0x5004
    ∷ 0x4025 ∷ 0x7046 ∷ 0x6067 ∷ 0x83b9 ∷ 0x9398 ∷ 0xa3fb ∷ 0xb3da ∷ 0xc33d ∷ 0xd31c ∷ 0xe37f
    ∷ 0xf35e ∷ 0x02b1 ∷ 0x1290 ∷ 0x22f3 ∷ 0x32d2 ∷ 0x4235 ∷ 0x5214 ∷ 0x6277 ∷ 0x7256 ∷ 0xb5ea
    ∷ 0xa5cb ∷ 0x95a8 ∷ 0x8589 ∷ 0xf56e ∷ 0xe54f ∷ 0xd52c ∷ 0xc50d ∷ 0x34e2 ∷ 0x24c3 ∷ 0x14a0
    ∷ 0x0481 ∷ 0x7466 ∷ 0x6447 ∷ 0x5424 ∷ 0x4405 ∷ 0xa7db ∷ 0xb7fa ∷ 0x8799 ∷ 0x97b8 ∷ 0xe75f
    ∷ 0xf77e ∷ 0xc71d ∷ 0xd73c ∷ 0x26d3 ∷ 0x36f2 ∷ 0x0691 ∷ 0x16b0 ∷ 0x6657 ∷ 0x7676 ∷ 0x4615
    ∷ 0x5634 ∷ 0xd94c ∷ 0xc96d ∷ 0xf90e ∷ 0xe92f ∷ 0x99c8 ∷ 0x89e9 ∷ 0xb98a ∷ 0xa9ab ∷ 0x5844
    ∷ 0x4865 ∷ 0x7806 ∷ 0x6827 ∷ 0x18c0 ∷ 0x08e1 ∷ 0x3882 ∷ 0x28a3 ∷ 0xcb7d ∷ 0xdb5c ∷ 0xeb3f
    ∷ 0xfb1e ∷ 0x8bf9 ∷ 0x9bd8 ∷ 0xabbb ∷ 0xbb9a ∷ 0x4a75 ∷ 0x5a54 ∷ 0x6a37 ∷ 0x7a16 ∷ 0x0af1
    ∷ 0x1ad0 ∷ 0x2ab3 ∷ 0x3a92 ∷ 0xfd2e ∷ 0xed0f ∷ 0xdd6c ∷ 0xcd4d ∷ 0xbdaa ∷ 0xad8b ∷ 0x9de8
    ∷ 0x8dc9 ∷ 0x7c26 ∷ 0x6c07 ∷ 0x5c64 ∷ 0x4c45 ∷ 0x3ca2 ∷ 0x2c83 ∷ 0x1ce0 ∷ 0x0cc1 ∷ 0xef1f
    ∷ 0xff3e ∷ 0xcf5d ∷ 0xdf7c ∷ 0xaf9b ∷ 0xbfba ∷ 0x8fd9 ∷ 0x9ff8 ∷ 0x6e17 ∷ 0x7e36 ∷ 0x4e55
    ∷ 0x5e74 ∷ 0x2e93 ∷ 0x3eb2 ∷ 0x0ed1 ∷ 0x1ef0 ∷ []

abbrev pub crc24_lookup : List ℕ
crc24_lookup =
    0x000000 ∷ 0x864cfb ∷ 0x8ad50d ∷ 0x0c99f6 ∷ 0x93e6e1 ∷ 0x15aa1a ∷ 0x1933ec ∷ 0x9f7f17 ∷ 0xa18139
    ∷ 0x27cdc2 ∷ 0x2b5434 ∷ 0xad18cf ∷ 0x3267d8 ∷ 0xb42b23 ∷ 0xb8b2d5 ∷ 0x3efe2e ∷ 0xc54e89
    ∷ 0x430272 ∷ 0x4f9b84 ∷ 0xc9d77f ∷ 0x56a868 ∷ 0xd0e493 ∷ 0xdc7d65 ∷ 0x5a319e ∷ 0x64cfb0
    ∷ 0xe2834b ∷ 0xee1abd ∷ 0x685646 ∷ 0xf72951 ∷ 0x7165aa ∷ 0x7dfc5c ∷ 0xfbb0a7 ∷ 0x0cd1e9
    ∷ 0x8a9d12 ∷ 0x8604e4 ∷ 0x00481f ∷ 0x9f3708 ∷ 0x197bf3 ∷ 0x15e205 ∷ 0x93aefe ∷ 0xad50d0
    ∷ 0x2b1c2b ∷ 0x2785dd ∷ 0xa1c926 ∷ 0x3eb631 ∷ 0xb8faca ∷ 0xb4633c ∷ 0x322fc7 ∷ 0xc99f60
    ∷ 0x4fd39b ∷ 0x434a6d ∷ 0xc50696 ∷ 0x5a7981 ∷ 0xdc357a ∷ 0xd0ac8c ∷ 0x56e077 ∷ 0x681e59
    ∷ 0xee52a2 ∷ 0xe2cb54 ∷ 0x6487af ∷ 0xfbf8b8 ∷ 0x7db443 ∷ 0x712db5 ∷ 0xf7614e ∷ 0x19a3d2
    ∷ 0x9fef29 ∷ 0x9376df ∷ 0x153a24 ∷ 0x8a4533 ∷ 0x0c09c8 ∷ 0x00903e ∷ 0x86dcc5 ∷ 0xb822eb
    ∷ 0x3e6e10 ∷ 0x32f7e6 ∷ 0xb4bb1d ∷ 0x2bc40a ∷ 0xad88f1 ∷ 0xa11107 ∷ 0x275dfc ∷ 0xdced5b
    ∷ 0x5aa1a0 ∷ 0x563856 ∷ 0xd074ad ∷ 0x4f0bba ∷ 0xc94741 ∷ 0xc5deb7 ∷ 0x43924c ∷ 0x7d6c62
    ∷ 0xfb2099 ∷ 0xf7b96f ∷ 0x71f594 ∷ 0xee8a83 ∷ 0x68c678 ∷ 0x645f8e ∷ 0xe21375 ∷ 0x15723b
    ∷ 0x933ec0 ∷ 0x9fa736 ∷ 0x19ebcd ∷ 0x8694da ∷ 0x00d821 ∷ 0x0c41d7 ∷ 0x8a0d2c ∷ 0xb4f302
    ∷ 0x32bff9 ∷ 0x3e260f ∷ 0xb86af4 ∷ 0x2715e3 ∷ 0xa15918 ∷ 0xadc0ee ∷ 0x2b8c15 ∷ 0xd03cb2
    ∷ 0x567049 ∷ 0x5ae9bf ∷ 0xdca544 ∷ 0x43da53 ∷ 0xc596a8 ∷ 0xc90f5e ∷ 0x4f43a5 ∷ 0x71bd8b
    ∷ 0xf7f170 ∷ 0xfb6886 ∷ 0x7d247d ∷ 0xe25b6a ∷ 0x641791 ∷ 0x688e67 ∷ 0xeec29c ∷ 0x3347a4
    ∷ 0xb50b5f ∷ 0xb992a9 ∷ 0x3fde52 ∷ 0xa0a145 ∷ 0x26edbe ∷ 0x2a7448 ∷ 0xac38b3 ∷ 0x92c69d
    ∷ 0x148a66 ∷ 0x181390 ∷ 0x9e5f6b ∷ 0x01207c ∷ 0x876c87 ∷ 0x8bf571 ∷ 0x0db98a ∷ 0xf6092d
    ∷ 0x7045d6 ∷ 0x7cdc20 ∷ 0xfa90db ∷ 0x65efcc ∷ 0xe3a337 ∷ 0xef3ac1 ∷ 0x69763a ∷ 0x578814
    ∷ 0xd1c4ef ∷ 0xdd5d19 ∷ 0x5b11e2 ∷ 0xc46ef5 ∷ 0x42220e ∷ 0x4ebbf8 ∷ 0xc8f703 ∷ 0x3f964d
    ∷ 0xb9dab6 ∷ 0xb54340 ∷ 0x330fbb ∷ 0xac70ac ∷ 0x2a3c57 ∷ 0x26a5a1 ∷ 0xa0e95a ∷ 0x9e1774
    ∷ 0x185b8f ∷ 0x14c279 ∷ 0x928e82 ∷ 0x0df195 ∷ 0x8bbd6e ∷ 0x872498 ∷ 0x016863 ∷ 0xfad8c4
    ∷ 0x7c943f ∷ 0x700dc9 ∷ 0xf64132 ∷ 0x693e25 ∷ 0xef72de ∷ 0xe3eb28 ∷ 0x65a7d3 ∷ 0x5b59fd
    ∷ 0xdd1506 ∷ 0xd18cf0 ∷ 0x57c00b ∷ 0xc8bf1c ∷ 0x4ef3e7 ∷ 0x426a11 ∷ 0xc426ea ∷ 0x2ae476
    ∷ 0xaca88d ∷ 0xa0317b ∷ 0x267d80 ∷ 0xb90297 ∷ 0x3f4e6c ∷ 0x33d79a ∷ 0xb59b61 ∷ 0x8b654f
    ∷ 0x0d29b4 ∷ 0x01b042 ∷ 0x87fcb9 ∷ 0x1883ae ∷ 0x9ecf55 ∷ 0x9256a3 ∷ 0x141a58 ∷ 0xefaaff
    ∷ 0x69e604 ∷ 0x657ff2 ∷ 0xe33309 ∷ 0x7c4c1e ∷ 0xfa00e5 ∷ 0xf69913 ∷ 0x70d5e8 ∷ 0x4e2bc6
    ∷ 0xc8673d ∷ 0xc4fecb ∷ 0x42b230 ∷ 0xddcd27 ∷ 0x5b81dc ∷ 0x57182a ∷ 0xd154d1 ∷ 0x26359f
    ∷ 0xa07964 ∷ 0xace092 ∷ 0x2aac69 ∷ 0xb5d37e ∷ 0x339f85 ∷ 0x3f0673 ∷ 0xb94a88 ∷ 0x87b4a6
    ∷ 0x01f85d ∷ 0x0d61ab ∷ 0x8b2d50 ∷ 0x145247 ∷ 0x921ebc ∷ 0x9e874a ∷ 0x18cbb1 ∷ 0xe37b16
    ∷ 0x6537ed ∷ 0x69ae1b ∷ 0xefe2e0 ∷ 0x709df7 ∷ 0xf6d10c ∷ 0xfa48fa ∷ 0x7c0401 ∷ 0x42fa2f
    ∷ 0xc4b6d4 ∷ 0xc82f22 ∷ 0x4e63d9 ∷ 0xd11cce ∷ 0x575035 ∷ 0x5bc9c3 ∷ 0xdd8538 ∷ []

abbrev pub crc32_lookup : List ℕ
crc32_lookup =
    0x00000000 ∷ 0x04c11db7 ∷ 0x09823b6e ∷ 0x0d4326d9 ∷ 0x130476dc ∷ 0x17c56b6b ∷ 0x1a864db2
    ∷ 0x1e475005 ∷ 0x2608edb8 ∷ 0x22c9f00f ∷ 0x2f8ad6d6 ∷ 0x2b4bcb61 ∷ 0x350c9b64 ∷ 0x31cd86d3
    ∷ 0x3c8ea00a ∷ 0x384fbdbd ∷ 0x4c11db70 ∷ 0x48d0c6c7 ∷ 0x4593e01e ∷ 0x4152fda9 ∷ 0x5f15adac
    ∷ 0x5bd4b01b ∷ 0x569796c2 ∷ 0x52568b75 ∷ 0x6a1936c8 ∷ 0x6ed82b7f ∷ 0x639b0da6 ∷ 0x675a1011
    ∷ 0x791d4014 ∷ 0x7ddc5da3 ∷ 0x709f7b7a ∷ 0x745e66cd ∷ 0x9823b6e0 ∷ 0x9ce2ab57 ∷ 0x91a18d8e
    ∷ 0x95609039 ∷ 0x8b27c03c ∷ 0x8fe6dd8b ∷ 0x82a5fb52 ∷ 0x8664e6e5 ∷ 0xbe2b5b58 ∷ 0xbaea46ef
    ∷ 0xb7a96036 ∷ 0xb3687d81 ∷ 0xad2f2d84 ∷ 0xa9ee3033 ∷ 0xa4ad16ea ∷ 0xa06c0b5d ∷ 0xd4326d90
    ∷ 0xd0f37027 ∷ 0xddb056fe ∷ 0xd9714b49 ∷ 0xc7361b4c ∷ 0xc3f706fb ∷ 0xceb42022 ∷ 0xca753d95
    ∷ 0xf23a8028 ∷ 0xf6fb9d9f ∷ 0xfbb8bb46 ∷ 0xff79a6f1 ∷ 0xe13ef6f4 ∷ 0xe5ffeb43 ∷ 0xe8bccd9a
    ∷ 0xec7dd02d ∷ 0x34867077 ∷ 0x30476dc0 ∷ 0x3d044b19 ∷ 0x39c556ae ∷ 0x278206ab ∷ 0x23431b1c
    ∷ 0x2e003dc5 ∷ 0x2ac12072 ∷ 0x128e9dcf ∷ 0x164f8078 ∷ 0x1b0ca6a1 ∷ 0x1fcdbb16 ∷ 0x018aeb13
    ∷ 0x054bf6a4 ∷ 0x0808d07d ∷ 0x0cc9cdca ∷ 0x7897ab07 ∷ 0x7c56b6b0 ∷ 0x71159069 ∷ 0x75d48dde
    ∷ 0x6b93dddb ∷ 0x6f52c06c ∷ 0x6211e6b5 ∷ 0x66d0fb02 ∷ 0x5e9f46bf ∷ 0x5a5e5b08 ∷ 0x571d7dd1
    ∷ 0x53dc6066 ∷ 0x4d9b3063 ∷ 0x495a2dd4 ∷ 0x44190b0d ∷ 0x40d816ba ∷ 0xaca5c697 ∷ 0xa864db20
    ∷ 0xa527fdf9 ∷ 0xa1e6e04e ∷ 0xbfa1b04b ∷ 0xbb60adfc ∷ 0xb6238b25 ∷ 0xb2e29692 ∷ 0x8aad2b2f
    ∷ 0x8e6c3698 ∷ 0x832f1041 ∷ 0x87ee0df6 ∷ 0x99a95df3 ∷ 0x9d684044 ∷ 0x902b669d ∷ 0x94ea7b2a
    ∷ 0xe0b41de7 ∷ 0xe4750050 ∷ 0xe9362689 ∷ 0xedf73b3e ∷ 0xf3b06b3b ∷ 0xf771768c ∷ 0xfa325055
    ∷ 0xfef34de2 ∷ 0xc6bcf05f ∷ 0xc27dede8 ∷ 0xcf3ecb31 ∷ 0xcbffd686 ∷ 0xd5b88683 ∷ 0xd1799b34
    ∷ 0xdc3abded ∷ 0xd8fba05a ∷ 0x690ce0ee ∷ 0x6dcdfd59 ∷ 0x608edb80 ∷ 0x644fc637 ∷ 0x7a089632
    ∷ 0x7ec98b85 ∷ 0x738aad5c ∷ 0x774bb0eb ∷ 0x4f040d56 ∷ 0x4bc510e1 ∷ 0x46863638 ∷ 0x42472b8f
    ∷ 0x5c007b8a ∷ 0x58c1663d ∷ 0x558240e4 ∷ 0x51435d53 ∷ 0x251d3b9e ∷ 0x21dc2629 ∷ 0x2c9f00f0
    ∷ 0x285e1d47 ∷ 0x36194d42 ∷ 0x32d850f5 ∷ 0x3f9b762c ∷ 0x3b5a6b9b ∷ 0x0315d626 ∷ 0x07d4cb91
    ∷ 0x0a97ed48 ∷ 0x0e56f0ff ∷ 0x1011a0fa ∷ 0x14d0bd4d ∷ 0x19939b94 ∷ 0x1d528623 ∷ 0xf12f560e
    ∷ 0xf5ee4bb9 ∷ 0xf8ad6d60 ∷ 0xfc6c70d7 ∷ 0xe22b20d2 ∷ 0xe6ea3d65 ∷ 0xeba91bbc ∷ 0xef68060b
    ∷ 0xd727bbb6 ∷ 0xd3e6a601 ∷ 0xdea580d8 ∷ 0xda649d6f ∷ 0xc423cd6a ∷ 0xc0e2d0dd ∷ 0xcda1f604
    ∷ 0xc960ebb3 ∷ 0xbd3e8d7e ∷ 0xb9ff90c9 ∷ 0xb4bcb610 ∷ 0xb07daba7 ∷ 0xae3afba2 ∷ 0xaafbe615
    ∷ 0xa7b8c0cc ∷ 0xa379dd7b ∷ 0x9b3660c6 ∷ 0x9ff77d71 ∷ 0x92b45ba8 ∷ 0x9675461f ∷ 0x8832161a
    ∷ 0x8cf30bad ∷ 0x81b02d74 ∷ 0x857130c3 ∷ 0x5d8a9099 ∷ 0x594b8d2e ∷ 0x5408abf7 ∷ 0x50c9b640
    ∷ 0x4e8ee645 ∷ 0x4a4ffbf2 ∷ 0x470cdd2b ∷ 0x43cdc09c ∷ 0x7b827d21 ∷ 0x7f436096 ∷ 0x7200464f
    ∷ 0x76c15bf8 ∷ 0x68860bfd ∷ 0x6c47164a ∷ 0x61043093 ∷ 0x65c52d24 ∷ 0x119b4be9 ∷ 0x155a565e
    ∷ 0x18197087 ∷ 0x1cd86d30 ∷ 0x029f3d35 ∷ 0x065e2082 ∷ 0x0b1d065b ∷ 0x0fdc1bec ∷ 0x3793a651
    ∷ 0x3352bbe6 ∷ 0x3e119d3f ∷ 0x3ad08088 ∷ 0x2497d08d ∷ 0x2056cd3a ∷ 0x2d15ebe3 ∷ 0x29d4f654
    ∷ 0xc5a92679 ∷ 0xc1683bce ∷ 0xcc2b1d17 ∷ 0xc8ea00a0 ∷ 0xd6ad50a5 ∷ 0xd26c4d12 ∷ 0xdf2f6bcb
    ∷ 0xdbee767c ∷ 0xe3a1cbc1 ∷ 0xe760d676 ∷ 0xea23f0af ∷ 0xeee2ed18 ∷ 0xf0a5bd1d ∷ 0xf464a0aa
    ∷ 0xf9278673 ∷ 0xfde69bc4 ∷ 0x89b8fd09 ∷ 0x8d79e0be ∷ 0x803ac667 ∷ 0x84fbdbd0 ∷ 0x9abc8bd5
    ∷ 0x9e7d9662 ∷ 0x933eb0bb ∷ 0x97ffad0c ∷ 0xafb010b1 ∷ 0xab710d06 ∷ 0xa6322bdf ∷ 0xa2f33668
    ∷ 0xbcb4666d ∷ 0xb8757bda ∷ 0xb5365d03 ∷ 0xb1f740b4 ∷ []
