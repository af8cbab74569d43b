-- ===== src/Lib.antt =====
-- The control program of the c't-Bot: the parts that decide what the robot does.
--
-- Parts and files
-- * Fifo models fifo.c and include/fifo.h, the byte queue between a producer and a consumer
--   (interrupts, the UART, the link to the simulator). `Fifo` is `fifo_t` with offsets for the two
--   pointers; `put`, `get`, `put_data` and `get_data` are `_inline_fifo_put`, `_inline_fifo_get`,
--   `fifo_put_data` and `fifo_get_data`. Fifo/Single has the invariant, Fifo/Rounds and Fifo/Block
--   the copying loops, Fifo/Queue the queue that the code stands for, and Fifo/Refine the two side
--   by side.
-- * PosStore models pos_store.c and include/pos_store.h, the position stores of the behaviours. The
--   operations on one store are in PosStore (`insert`, `push`, `pop`, `dequeue`, `top` for
--   `pos_store_insert` and so on), the array of stores and its allocation in PosStore/Slots.
--   PosStore/Mask is about the masking of the pointers, PosStore/Ring and PosStore/Ends about the
--   ring, PosStore/Deque and PosStore/Refine about the sequence that it stands for.
-- * BotLogic models bot-logic/bot-logic.c and include/bot-logic/bot-logic.h, the framework of the
--   behaviours. BotLogic has the list in the order of the priorities, BotLogic/Calls the calls
--   between behaviours (`switch_to_behaviour`, `exit_behaviour`, `deactivate_called_behaviours`),
--   BotLogic/Init the table that `bot_behave_init` registers, BotLogic/Emergency the emergency
--   procedures, and BotLogic/Behave the round that `bot_behave` makes.
-- * Command models the transport of command.c and include/command.h: `command_read` in Command, with
--   its parts `find_start`, `collect` and `accept`, and `receive_until_frame`; in Command/Send the
--   functions that write (`command_write_to_internal` and its callers). Command/Frame is about a
--   command as bytes, Command/Receive and Command/Loop about what is read, Command/Session about two
--   bots, and Command/Until about the loop that reads up to a command of a kind.
-- * Infrared models mcu/ir-rc5.c and include/ir-rc5.h, the decoder of the remote control and of the
--   beacons: `ir_isr` with its branches `edge` and `level`, and `ir_read`. Infrared/Timing,
--   Infrared/Decode, Infrared/Silence and Infrared/Frame are about a row of samples, a bit, a
--   frame's two ends and a frame.
-- * Scheduler models mcu/os_scheduler.c, mcu/os_thread.c and include/os_thread.h: the choice of the
--   next thread in `os_schedule`, and the calls that lead to it (`os_thread_yield`, `os_signal_set`,
--   `os_signal_unlock` and so on); Scheduler/Choice is about the thread that runs behind them.
-- * Map models map.c and include/map.h, the map of the floor. Map/Place and Map/World have the places
--   (`get_block`, `world_to_map`), Map/Sdfat the file behind the calls `sdfat_seek`, `sdfat_read` and
--   `sdfat_write`, Map/Store the block in memory (`get_section`, `access_field`, `map_flush_cache`).
--   What uses the fields stands over any store of fields (`FieldStore` of Map/Fields): Map/Update has
--   `update_field`, `set_value_field_circle` and `set_value_occupied`, Map/Ray has `update_occupied`
--   and `update_sensor_distance`, Map/Thread what `map_update_main` enters for an entry, Map/Ratio
--   has `get_ratio`, `map_get_ratio` and `map_way_free`, Map/Average has `get_average_fields` and
--   `map_get_average`. Map/Address is about the places, Map/Cache, Map/Section and Map/Access are
--   about the block in memory and the file as one array of fields, Map/Flush and Map/Faults about
--   what is lost, Map/Saved about what is saved, Map/Client, Map/Saturate, Map/Circle, Map/Occupied
--   and Map/Holes about changed fields, Map/Line, Map/RayLine, Map/Clear, Map/WayFree and Map/Passage
--   about the lines and strips, Map/Mean and Map/Collect about the mean value.
-- * Bot2Bot models bot-2-bot.c and include/bot-2-bot.h. Bot2Bot/Bots has the list of the known bots
--   (`add_bot_to_list`, `set_received_bot_state` and so on), Bot2Bot/Payload the transfer of data
--   (`bot_2_bot_send_payload_request` and the handlers of requests, acknowledgements and data)
--   between two bots. Bot2Bot/Known and Bot2Bot/States are about the list, Bot2Bot/Transfer about a
--   whole transfer.
-- * Pathplanning models bot-logic/behaviour_pathplanning.c, the search for a path round obstacles.
--   Pathplanning/Lowres has the coarse map (`access_field_lowres`, `delete_lowres`, `set_hazards`),
--   Pathplanning/Wave the wave from the target to the robot (`get_neighbour` and the state
--   NEIGHBOURS_FROM_FIFO of `bot_calc_wave_behaviour`), Pathplanning/Follow the way back along it
--   (SEARCH_STACKPATH_AND_QUEUE). The queue is a store of PosStore, the hazards come from
--   `map_get_ratio` of Map. Pathplanning/Fields and Pathplanning/Queue are about the map as an array
--   and the queue as a list, Pathplanning/Step, Pathplanning/Zeros, Pathplanning/Reached,
--   Pathplanning/Rounds and Pathplanning/Ends about the wave, Pathplanning/WayBack about the way back,
--   Pathplanning/Blank about the map at the beginning.
-- * Abl models bot-logic/behaviour_abl.c, the interpreter of the robot's small language: the handlers
--   of the keywords (`if_handler`, `else_handler`, `endf_handler` and so on), the stack (`abl_push`,
--   `pop_handler`) and the work function `bot_abl_behaviour`. Abl/Listing is a program as a list of
--   instructions, Abl/Blocks its blocks, Abl/Meaning what comes of them. Abl/Skip is about blocks
--   that are left out, Abl/Runs and Abl/Branches about the calls of the work function for a whole
--   program, Abl/Choice about which block of a branch is executed and Abl/Fault about where that
--   goes wrong, Abl/Loops and Abl/Return about the way back from endf().
-- * Base has the names, the tests and the lemmas on lists that these share; Base/Window is about a
--   ring buffer's contents as a list.
--
-- How the parts interact: a behaviour's work function runs in the round of BotLogic/Behave and may
-- call others through BotLogic/Calls; a behaviour owns a store of PosStore, named by its address.
--
-- Conventions: a uint8_t is a natural number with its wrap at 256 written out, and an int16_t is its
-- bit pattern. A pointer to a record is the record's address or its index, and `none` is NULL.
-- Blocking on a signal of the operating system is a reply of its own: the call is made anew when the
-- signal comes.
--
-- Bounds and fuel: `is_in_call_hierarchy` and `deactivate_called_behaviours` follow the callers
-- of a behaviour and run on fuel. More fuel than a rank that falls along the callers is enough; a
-- cycle of callers has no such rank. The loop of a sender of data (`wait`) runs on fuel, one for
-- each turn; the size of the data in windows of 32 bytes, and three more, are enough. The loops
-- of the path planning run on fuel, one for each turn: 1290374 are enough for the wave over 96 *
-- 96 fields, and 120 for the way back. The searches of the interpreter for the end of a block or
-- for a label run on fuel, one for each instruction; more than the lines of the program is
-- enough. `receive_until_frame` runs on fuel, one for each `command_read`; more than the inputs
-- is enough. Everything else is structural recursion.
--
-- Parameters: `malloc`, the write function of a connection, `command_evaluate`, the work functions of
-- the behaviours, the float operations on the factors of their wishes, the file of the map and the
-- products with the sine and the cosine of the heading are arguments of the definitions that use
-- them. `bot_remotecall` is one for the interpreter, and how the next and the previous instruction are
-- read (`i_fetch` and `i_fetch_back`) is its interface `Reader`. What a connection hands over is the `Input` of a call of `command_read`.
--
-- The configuration of the map is that of ct-Bot.h without MAP_2_SIM_AVAILABLE and
-- MEASURE_POSITION_ERRORS_AVAILABLE: 1536 fields of 8 mm along each axis.
--
-- Not modelled: map_init, the thread that sends the map to the simulator and the copying of files in
-- map.c, interrupts between the statements of one operation (but for one call of the scheduler behind
-- its search), command_evaluate, the reading and decoding of instructions in
-- bot-logic/behaviour_abl.c, the copy of uBasic in bot-logic/ubasic.c, the remote calls of bot-2-bot.c and the behaviours' own work functions,
-- all of which are larger parts for later; and what is hardware, sockets, files, floating point or
-- output: the drivers in mcu, pc, ui, motor.c, sensor.c, log.c, and the copy of SdFat.
pub mod Base
pub mod Fifo
pub mod PosStore
pub mod BotLogic
pub mod Command
pub mod Infrared
pub mod Scheduler
pub mod Map
pub mod Bot2Bot
pub mod Pathplanning
pub mod Abl
