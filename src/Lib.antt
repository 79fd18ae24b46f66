-- ===== src/Lib.antt =====
-- UnixOS-Simulation: four modules that talk over sockets simulate an operating system. The kernel
-- schedules the processes that consoles bring, the CPU executes their instructions, the memory module
-- keeps their segments, and the file system their files.
--
-- Base holds what all parts share: Boolean tests on native numbers, lists, the outcome of a call (a
-- value, `exit(1)`, or an access that C leaves undefined), strings as lists of codes, and signed
-- integers with C's division and `atoi`. Commons names what is called of the so-commons library.
--
-- Biblioteca (ganSOsLibrary/src/funciones.c and header.h, and the requests in the other modules'
-- headers): Paquete the packets, Contexto `paquete_contexto` and `recibir_paquete_contexto`, Mensajes
-- texts, identities and the list of connections, Peticiones each request with its reader. A socket is
-- the list of the bytes on it.
--
-- Consola (Consola/src/Consola.h): how a file of instructions is read, Lineas, and sent, Envio. The loop
-- that reads runs on fuel; each turn but the last takes a byte of the file, so the length of the file
-- and one more is enough.
--
-- Memoria (Memoria/src/memoria.h): Huecos the free holes, Asignacion `calloc_segment`, Tablas
-- `create_segment`, `delete_segment` and the EXIT case, Compactacion `compactar_segmentos`, Servicio
-- the start in memoria.c and one turn of `esperarKernel`, Espacio the reads and writes of the user
-- space. Segments stand in a heap under addresses, since every table shares the object of segment 0.
-- The loop of the compaction runs on fuel. Each turn moves a segment down, so the sum of the
-- positions at which the segments start and one more is enough.
--
-- Cpu (cpu/src/cpu.h and cpu.c): Registros, Mmu, Instrucciones, and Ciclo the loop of `main` on one
-- context. Each turn moves the program counter on and a turn needs an instruction there, so the loop
-- runs on as much fuel as there are instructions and one more. Its memory module is a field of the
-- state, in place of the answers on the socket. How so-commons splits and formats texts is a parameter.
-- TAM_MAX_SEGMENTO, by which the MMU divides, is positive in every configuration.
--
-- FileSystem (FileSystem/src/filesys.h): Bitmap, Bloques what an FCB takes and gives back, Archivos the
-- requests of the kernel, Inicio `inicializarListaFCB`. A block pointer of -1 is none. Whether an FCB
-- can be saved, and what `malloc` leaves in a field that is not written, are parameters.
-- Lista says when the pointers of an FCB, the bytes of its block of pointers and the bitmap stand for a
-- list of blocks, on a file of blocks below 2 ^ 31 bytes with blocks of at least four bytes; Agregar,
-- Quitar, Crecer, Truncar and RoundTrip are what the operations do to that list and to the bytes of its
-- blocks. The loops over blocks run on the number of blocks, which is their count in the source.
--
-- Kernel (Kernel/src/kernel.h): the state that its threads share, with the counters of the semaphores;
-- Recursos WAIT, SIGNAL and the release at the end of a process; Archivos `process_f_open`,
-- `process_f_close` and `liberar_archivo`; Ficheros the other operations on files and `operarFS`;
-- Procesos `gestionarNuevasConexiones`, `gestionadorReady`, what goes to the CPU and comes back, and
-- I/O; Segmentos `create_segment`, `delete_segment` and `compaction_manager`; Operaciones `readOp`;
-- Salida `gestionadorExit`. What the other modules answer is an argument. Sistema puts the threads
-- together: the steps of the threads come in any order. A step of Sistema is an operation of a thread up to
-- its next wait, but the admission of a process and an operation of `operarFS` are one step each, with the
-- semaphores before and the answer of the other module. Sistema/Esperas cuts these two at their waits (for
-- hayConsolasNew, for hayEspacioReady, for the table, for the file system), and `visto` is what the other
-- threads find meanwhile. The answer to DELETE_SEGMENT comes with the step that asks, as its process runs
-- until then. Presencia counts where PCBs stand, Marco says what most operations leave alone.
--
-- Not modelled: sockets and their errors, what threads do to each other between two waits,
-- configuration files, logs and delays, the sizes of the blocks that strings are copied into (but for
-- the registers and the names of resources in the kernel and the bytes that leerBloque reads), the estimates
-- by which HRRN orders, positions before the start of a file, and the console's prompts. An `int` is a
-- natural number below 2 ^ 32 in a packet, wraps at 2 ^ 32 in the sums of the MMU, and is a number without
-- bounds elsewhere.
pub mod Base
pub mod Biblioteca
pub mod Commons
pub mod Consola
pub mod Memoria
pub mod Cpu
pub mod FileSystem
pub mod Kernel
pub mod Tests
