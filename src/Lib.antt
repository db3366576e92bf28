-- ===== src/Lib.antt =====
-- The C programs of 6502-Builds. The repository collects software for 6502 machines: interpreters and
-- monitors in assembly, a simulator in Java, and a cc65 distribution whose samples, in
-- bin/cc65-snapshot-win32/samples, are its C programs. This development models those.
--
-- The programs are separate: each has its own `main`, and they share the cc65 library only. What they
-- call of the library, and what the hardware reads, is a parameter of the definitions that use it.
--
--   Base    what the models share: Boolean tests, lists over the native numbers, machine words
--           (u8, u16, u32 with their wrap-around), memories by address.
--   Sieve   sieve.c. `execute` is the part between the two calls of clock: `cleared` is memset,
--           `cross_out`, `visit` and `mark_multiples` are the loops over I and J. Sieve/Listing is
--           the rest of main: `time_used`, `offer_list`, `list_primes`, `run_main`. Sieve/Marking,
--           Crossing and Primes and Sieve/Listing/Pages and Main hold the proofs.
--   Gunzip  gunzip65.c. `get_byte`, `get_word`, `get_long`, `skip_header`, `memmove`,
--           `uncompress_buffer`; Gunzip/Program is get_fname and main. Gunzip/Format is the file
--           format of RFC 1952, as the comment in the source gives it. Gunzip/Header, RoundTrip,
--           Checks and Truncated hold the proofs. `inflatemem` and `crc32` are parameters.
--   Music   nachtm.c. Music/Score is the tables of the three voices and FreqTab; `fetch_note`,
--           `start_note`, `count_down`, `play_voice`, `play_tick` and `play_from` are the main loop,
--           `time_sync` and `display_time` the functions TimeSync and DisplayTime. Music/Voice,
--           Ensemble and Ending hold the proofs.
--   Fire    fire.c. `makechar`, `fire` with its loops `burn` and `feed`, `clear_pages` and `frames`, for
--           a Commodore 64. Fire/Flame, Pages and Charset hold the proofs.
--   Plasma  plasma.c. `doplasma` with its loops `wave`, `draw` and `draw_row`, its statics as fields of
--           the state, the main loop `rounds`, and `makechar` with its loops `dot_glyphs`,
--           `dot_rows` and `dot_row`, for a Commodore 64; `rand` is a parameter.
--           Plasma/Picture, Cycle and Dots hold the proofs.
--   DiskCopy  diodemo.c: `ask_for_drive` is AskForDrive, on the keys that the user presses, and
--           `alloc_buffer` AllocBuffer. DiskCopy/Copy is main: `drives_of` the choice of the
--           drives, `begin_source`, `read_chunk`, `begin_target` and `write_chunk` the parts of a
--           round, `copy_chunks` the loop. The drives and the user are the interface `Dio`, whose
--           laws are in DiskCopy/Copy/Laws; Sizes, Loops, Writing, Opening,
--           OpeningTarget and Rounds hold the proofs.
--   MouseTest  mousetest.c: `on_key` is the switch on a key, `test_loop` the loop, `mouse_test` main.
--           MouseTest/Jail, Visibility and Quit hold the proofs.
--   Overlays  multidemo.c, for a Commodore 64: `load_em_driver` is loademdriver, `load_overlay`
--           loadoverlay, `copy_overlays` copyoverlays and `multi_demo` main. Extended memory is the
--           interface `Em`. Overlays/Loading, which has its laws, Code and Drivers hold the
--           proofs.
--   Mandelbrot  mandelbrot.c: `iterate` and `iterations` are the innermost loop of mandelbrot,
--           `draw_columns` and `draw_rows` the loops around it, `whole_set` the call in main.
--           Mandelbrot/Orbit and Picture hold the proofs.
--   Directories  enumdevdir.c: `printdir` with its loops `read_entries` and `print_each`, and
--           `enumerate`, which is main. The calls of the library are the interface `Files`.
--           Directories/Listing, which has its laws, and Devices hold the proofs.
--   Graphics  tgidemo.c: `do_circles`, `do_checkerboard`, `do_diagram` and `do_lines` are the functions of
--           their names, `tgi_demo` main. Graphics/Tiles, Checkerboard, Lines and Demo hold the proofs.
--   Ascii   ascii.c with conio: `table_loop` is the loop of main, `show_codes` main. Ascii/Codes and
--           Screen hold the proofs.
--   Geos    samples/geos: Geos/Protection is rmvprot.c, with its laws and proofs in Clears; Geos/Vectors
--           is vector-demo.c, with proofs in Hooks; Geos/Records is overlay-demo.c, with its laws
--           and proofs in Calls. The calls of the kernal are interfaces.
--   Statistics  the times and rates that plasma.c, fire.c and mandelbrot.c print: `plasma_statistics`,
--           `fire_statistics` and `mandelbrot_time`. Statistics/Rates holds the proofs.
--   Overlays/Files  overlaydemo.c, for a Commodore 64: `loadfile` and main, which is `overlay_files`, with
--           the proofs.
--
-- Fuel: the loops of sieve.c over I and J have the bound of the array as fuel, the loop of nachtm.c its
-- rounds, that of AllocBuffer in diodemo.c has ten, its loops over a chunk have the sectors, and its main
-- loop has more rounds than sectors. printdir of enumdevdir.c has the height of the tree of directories,
-- and main 256 rounds for the devices; DoCheckerboard of tgidemo.c has two more than the polls, DoLines
-- more than the height of the screen, and a hook of vector-demo.c two calls. That it is enough is part of the theorems. The
-- other loops count up to a constant, and are recursion on the rounds that are left.
--
-- Not modelled: console output other than the list of sieve.c, the time of nachtm.c, the lines of
-- enumdevdir.c and overlaydemo.c, the calls of ascii.c, and statistics; colours and the registers of
-- the video chip; hello.c, and the samples for GEOS that are only data or calls of the kernal;
-- the cc65 library itself, the assembly programs and the simulator.
pub mod Base
pub mod Sieve
pub mod Gunzip
pub mod Music
pub mod Fire
pub mod Plasma
pub mod DiskCopy
pub mod MouseTest
pub mod Overlays
pub mod Directories
pub mod Mandelbrot
pub mod Graphics
pub mod Ascii
pub mod Geos
pub mod Statistics
