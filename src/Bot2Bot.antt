-- ===== src/Bot2Bot.antt =====
-- The messages between bots: bot-2-bot.c and include/bot-2-bot.h. The list of the known bots and the
-- transfer of data in windows.
pub mod Bots
mod Transfer
mod Known
mod States
mod Tests
pub mod Payload
