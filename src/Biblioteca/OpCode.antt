-- ===== src/Biblioteca/OpCode.antt =====
-- ganSOsLibrary/src/header.h: the enumeration `op_code`, numbered from 0.
use unix_os_simulation.Base.{ℕ}

abbrev pub mensaje : ℕ
mensaje = 0

abbrev pub paquete : ℕ
paquete = 1

abbrev pub identidad : ℕ
identidad = 2

abbrev pub running : ℕ
running = 3

abbrev pub yield : ℕ
yield = 4

abbrev pub exit : ℕ
exit = 5

abbrev pub i_o : ℕ
i_o = 6

abbrev pub f_open : ℕ
f_open = 7

abbrev pub f_close : ℕ
f_close = 8

abbrev pub f_seek : ℕ
f_seek = 9

abbrev pub f_read : ℕ
f_read = 10

abbrev pub f_write : ℕ
f_write = 11

abbrev pub f_truncate : ℕ
f_truncate = 12

abbrev pub wait : ℕ
wait = 13

abbrev pub signal : ℕ
signal = 14

abbrev pub create_segment : ℕ
create_segment = 15

abbrev pub delete_segment : ℕ
delete_segment = 16

abbrev pub mov_in : ℕ
mov_in = 17

abbrev pub mov_out : ℕ
mov_out = 18

abbrev pub set : ℕ
set = 19

abbrev pub error : ℕ
error = 20

abbrev pub compaction : ℕ
compaction = 21
